-- ===== src/Approval/Lifecycle/Clearance.antt =====
-- No request gets past pending without an approval (gateway/internal/approval/store.go).
use mathlib.Core.List.{Memᴰ}
use sentrymesh.Base.{
  ℕ, String, ◌≡◌, refl, sym, subst, ap, ◌⊎◌, inl, inr, arith, Bool, true, false, List, [], ◌∷◌,
  Option, none, some, Option-cases, Bool-cases,
}
use sentrymesh.Json.{Arguments}
use sentrymesh.Tools.{Reason}
use sentrymesh.Sql.Laws.{touched}
use sentrymesh.Approval.{
  Codec, Status, pending, approved, rejected, executing, Request, Store, new_store, new_request,
  create, insert_row, find, update, is_pending, is_claimable, is_executing, with_status,
  finished_at, set_status, claim_execution, finish_execution, fail_execution,
}
use sentrymesh.Approval.Lifecycle.Rows.{
  key, Inv, new_store-Inv, find_id, find-update, find-insert_row,
}
use sentrymesh.Approval.Lifecycle.History.{
  approve, reject, Op, creates, resolves, claims, finishes, fails, step, run, step-Inv,
}

-- A request that an approval has let through.
abbrev pub is_cleared : Status → Bool
is_cleared pending = false
is_cleared rejected = false
is_cleared _ = true

abbrev pub cleared : Option Request → Bool
cleared none = false
cleared (some r) = is_cleared r.status

update-cleared :
    (p : Request → Bool) (f : Request → Request) (k id : ℕ) (s : Store)
    → ((r : Request) → (f r).id ≡ r.id)
    → ((r : Request) → p r ≡ true → is_cleared (f r).status ≡ true → is_cleared r.status ≡ true)
    → cleared (find k (update p f id s).rows) ≡ true
    → cleared (find k s.rows) ≡ true
update-cleared p f k id s keeps back h =
    go (find k s.rows) (subst (λ o. cleared o ≡ true) (find-update p f k id s keeps) h)
  where
    go : (o : Option Request) → cleared (touched key p f id o) ≡ true → cleared o ≡ true
    go none h = h
    go (some r) h = ground (arith, back r)

approve-cleared :
    (k id : ℕ) (s : Store)
    → cleared (find k (update is_pending (with_status approved) id s).rows) ≡ true
    → (id ≡ k) ⊎ (cleared (find k s.rows) ≡ true)
approve-cleared k id s h = go (find k s.rows) (find_id k s.rows) (
    subst (λ o. cleared o ≡ true) (find-update is_pending (with_status approved) k id s (λ r. refl))
      h)
  where
    go :
        (o : Option Request)
        → ((r : Request) → o ≡ some r → r.id ≡ k)
        → cleared (touched key is_pending (with_status approved) id o) ≡ true
        → (id ≡ k) ⊎ (cleared o ≡ true)
    go none _ h = inr h
    go (some r) at_k h = ground (arith, at_k r refl)

insert_row-cleared :
    (k : ℕ) (up : Bool) (row : Request) (s : Store)
    → row.id ≡ s.next_id
    → row.status ≡ pending
    → Inv s
    → cleared (find k (insert_row up row s).1.rows) ≡ true
    → cleared (find k s.rows) ≡ true
insert_row-cleared k false row s e p v h = unfold insert_row in h
insert_row-cleared k true row s e p v h = ground (arith, find-insert_row k row s e v)

create-cleared :
    (codec : Codec) (up : Bool) (now : ℕ) (tool : String) (arguments : Arguments) (risk : ℕ)
    (reason : Reason) (s : Store) (k : ℕ)
    → Inv s
    → cleared (find k (create codec up now tool arguments risk reason s).1.rows) ≡ true
    → cleared (find k s.rows) ≡ true
unfolding create
create-cleared codec up now tool arguments risk reason s k v h =
    elim (Option-cases (codec.marshal arguments)) [
      | inl e ↦ rw (e, create) at h
      | inr (doc, e) ↦
          insert_row-cleared k up (new_request s.next_id now tool doc risk reason) s refl refl v
            (rw (e, create) at h)
    ]

pub step-cleared :
    (s : Store) (o : Op) (k : ℕ)
    → Inv s
    → cleared (find k (step s o).rows) ≡ true
    → (o ≡ resolves true k approve) ⊎ (cleared (find k s.rows) ≡ true)
unfolding step set_status claim_execution finish_execution fail_execution
step-cleared s (creates codec up now tool arguments risk reason) k v h =
    inr (create-cleared codec up now tool arguments risk reason s k v h)
step-cleared s (resolves true id approve) k v h = elim (approve-cleared k id s h) [
  | inl e ↦ inl (ap (λ i. resolves true i approve) e)
  | inr c ↦ inr c
]
step-cleared s (resolves true id reject) k v h =
    inr (update-cleared is_pending (with_status rejected) k id s (λ r. refl) (λ r p c. cc) h)
step-cleared s (claims true id) k v h = inr (
    update-cleared is_claimable (with_status executing) k id s (λ r. refl) (λ r p c. ground arith)
      h)
step-cleared s (finishes true now id) k v h =
    inr (update-cleared is_executing (finished_at now) k id s (λ r. refl) (λ r p c. ground arith) h)
step-cleared s (fails true id) k v h = inr (
    update-cleared is_executing (with_status approved) k id s (λ r. refl) (λ r p c. ground arith) h)
step-cleared s (resolves false id verdict) k v h = inr h
step-cleared s (claims false id) k v h = inr h
step-cleared s (finishes false now id) k v h = inr h
step-cleared s (fails false id) k v h = inr h

cleared_needs_approval_from :
    (s : Store) (os : List Op) (k : ℕ)
    → Inv s
    → cleared (find k s.rows) ≡ false
    → cleared (find k (run s os).rows) ≡ true
    → Memᴰ (resolves true k approve) os
unfolding run
cleared_needs_approval_from s [] k v no_c h = cc
cleared_needs_approval_from s (o ∷ os) k v no_c h =
    elim (Bool-cases (cleared (find k (step s o).rows))) [
      | inl now ↦ elim (step-cleared s o k v now) [ inl e ↦ Memᴰ.head (sym e) | inr before ↦ cc ]
      | inr not_yet ↦
          Memᴰ.tail (cleared_needs_approval_from (step s o) os k (step-Inv s o v) not_yet h)
    ]

-- From an empty table, a request is approved, executing or executed only after an approval of it
-- that the database carried out.
pub cleared_needs_approval :
    (os : List Op) (k : ℕ)
    → cleared (find k (run new_store os).rows) ≡ true
    → Memᴰ (resolves true k approve) os
unfolding new_store find
cleared_needs_approval os k h = cleared_needs_approval_from new_store os k new_store-Inv refl h
