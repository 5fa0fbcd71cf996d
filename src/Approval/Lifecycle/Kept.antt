-- ===== src/Approval/Lifecycle/Kept.antt =====
-- Creating and resolving requests leaves every request that is no longer pending as it is
-- (gateway/internal/approval/store.go).
use sentrymesh.Base.{
  ℕ, String, ◌≡◌, ◌≢◌, refl, inl, inr, arith, Bool, true, false, some, Option-cases,
}
use sentrymesh.Json.{Arguments}
use sentrymesh.Tools.{Reason}
use sentrymesh.Approval.{
  Codec, Status, pending, Request, Store, new_request, create, insert_row, find, is_pending,
  with_status, set_status,
}
use sentrymesh.Approval.Lifecycle.Rows.{Inv, find-update, find-insert_row, vacant}

pub set_status-kept :
    (up : Bool) (id : ℕ) (status : Status) (s : Store) (k : ℕ) (r : Request)
    → find k s.rows ≡ some r
    → r.status ≢ pending
    → find k (set_status up id status s).1.rows ≡ some r
unfolding set_status
set_status-kept false id status s k r h n = h
set_status-kept true id status s k r h n =
    ground (arith, find-update is_pending (with_status status) k id s (λ r. refl))

insert_row-kept :
    (up : Bool) (row : Request) (s : Store) (k : ℕ) (r : Request)
    → row.id ≡ s.next_id
    → Inv s
    → find k s.rows ≡ some r
    → find k (insert_row up row s).1.rows ≡ some r
insert_row-kept false row s k r e v h = unfold insert_row in h
insert_row-kept true row s k r e v h = ground (arith, find-insert_row k row s e v, vacant k s)

pub create-kept :
    (codec : Codec) (up : Bool) (now : ℕ) (tool : String) (arguments : Arguments) (risk : ℕ)
    (reason : Reason) (s : Store) (k : ℕ) (r : Request)
    → Inv s
    → find k s.rows ≡ some r
    → find k (create codec up now tool arguments risk reason s).1.rows ≡ some r
unfolding create
create-kept codec up now tool arguments risk reason s k r v h =
    elim (Option-cases (codec.marshal arguments)) [
      | inl e ↦ rw (e, create) h
      | inr (doc, e) ↦
          rw (e, create)
            (insert_row-kept up (new_request s.next_id now tool doc risk reason) s k r refl v h)
    ]
