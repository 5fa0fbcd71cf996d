-- ===== src/ToolApi/Resolving.antt =====
-- What approving and rejecting a request (gateway/internal/api/approvals.go) leave behind.
use sentrymesh.Base.{
  ℕ, ◌≡◌, ◌≢◌, refl, sym, ap, subst, ◌∙◌, arith, inl, inr, Bool, true, false, List, Option, none,
  some, if◌then◌else◌, Result, ok, err, Bool-cases, ◌==◌, ==_iff,
}
use sentrymesh.Identity.{Identity, admin, has_role}
use sentrymesh.Sql.Laws.{touched, hit}
use sentrymesh.Approval.{
  Status, pending, approved, rejected, executing, executed, Request, Error, already_resolved,
  update, count, find, get, is_pending, same_status, with_status, set_status,
}
use sentrymesh.Approval.Lifecycle.{key, Inv, find-update, count-hit, find_id, Verdict, status_of}
use sentrymesh.Approval.Races.{update_idle}
use sentrymesh.ToolApi.{
  World, Luck, Response, settlement, fails, answers, write_tool_event, settled_event, after_set,
  resolve_approval,
}

-- What an answer means: a 200 has moved a pending request to the status, touched no other, and has
-- asked for one audit event that names the admin; every other answer leaves each request as it was
-- and asks for no event.
pub data Settled (luck : Luck) (principal : Identity) (id : ℕ) (verdict : Verdict) (w : World)
    : Response × World → Type 0 where
  refused :
      (status : ℕ) (after : World)
      → status ≢ 200
      → ((k : ℕ) → find k after.store.rows ≡ find k w.store.rows)
      → after.events ≡ w.events
      → Settled luck principal id verdict w (fails status, after)
  moved :
      (item : Request) (after : World)
      → has_role principal admin ≡ true
      → find id w.store.rows ≡ some item
      → item.status ≡ pending
      → ((k : ℕ)
          → find k after.store.rows ≡ (
              if id == k then some (with_status (status_of verdict) item) else find k w.store.rows))
      → after.events
        ≡ write_tool_event luck
            (settled_event luck principal id (status_of verdict) (get luck.second id after.store))
            w.events
      → Settled luck principal id verdict w (answers 200 (settlement id (status_of verdict)), after)

is_pending-eq : (status : Status) → same_status status pending ≡ true → status ≡ pending
is_pending-eq pending h = refl
is_pending-eq approved h = cc
is_pending-eq rejected h = cc
is_pending-eq executing h = cc
is_pending-eq executed h = cc

touched_id :
    (f : Request → Request) (id : ℕ) (item : Request)
    → item.id ≡ id
    → is_pending item ≡ true
    → touched key is_pending f id (some item) ≡ some (f item)
touched_id f id item h on = ground (arith, h, on)

touched_other :
    (f : Request → Request) (id k : ℕ) (o : Option Request)
    → ((r : Request) → o ≡ some r → r.id ≡ k)
    → (id == k) ≡ false
    → touched key is_pending f id o ≡ o
touched_other f id k none at_k n = refl
touched_other f id k (some r) at_k n = ground (arith, at_k r refl, n)

-- What the statement makes of the row at any id, when a pending one stands at `id`.
touched_there :
    (f : Request → Request) (id k : ℕ) (rows : List Request) (item : Request)
    → find id rows ≡ some item
    → is_pending item ≡ true
    → touched key is_pending f id (find k rows) ≡ (if id == k then some (f item) else find k rows)
touched_there f id k rows item e on = elim (Bool-cases (id == k)) [
  | inl q ↦
      ap (λ j. touched key is_pending f id (find j rows)) (sym ((==_iff id k).0 q))
      ∙ ap (touched key is_pending f id) e
      ∙ touched_id f id item (find_id id rows item e) on
      ∙ rw q refl
  | inr n ↦ touched_other f id k (find k rows) (find_id k rows) n ∙ rw n refl
]

sets :
    (luck : Luck) (principal : Identity) (id : ℕ) (verdict : Verdict) (w : World) (up : Bool)
    → Inv w.store
    → has_role principal admin ≡ true
    → Settled luck principal id verdict w (
        after_set luck principal id
          (status_of verdict)
          w.events
          (set_status up id (status_of verdict) w.store))
unfolding set_status
sets luck principal id verdict w false v a = refused 404 w (λ h. omega (arith, h)) (λ k. refl) refl
sets luck principal id verdict w true v a = go (find id w.store.rows) refl
  where
    status : Status
    status = status_of verdict

    S : Result Error (Unit {0}) → Type 0
    S r = Settled luck principal id verdict w (
        after_set luck principal id status w.events
          (r, update is_pending (with_status status) id w.store))

    idle :
        hit key is_pending (find id w.store.rows) ≡ 0
        → S (if count is_pending id w.store == 0 then err already_resolved else ok tt)
    idle z =
        let (zero_count, same) =
          update_idle is_pending (with_status status) id w.store (λ r. refl) v z in
        subst (λ n. S (if n == 0 then err already_resolved else ok tt)) (sym zero_count)
          (refused 404 _ (λ h. omega (arith, h)) same refl)

    one : (item : Request) → is_pending item ≡ true → hit key is_pending (some item) ≡ 1
    one item on = rw on refl

    none_hit : (item : Request) → is_pending item ≡ false → hit key is_pending (some item) ≡ 0
    none_hit item off = rw off refl

    go :
        (o : Option Request)
        → find id w.store.rows ≡ o
        → S (if count is_pending id w.store == 0 then err already_resolved else ok tt)
    go none e = idle (ap (hit key is_pending) e)
    go (some item) e = elim (Bool-cases (is_pending item)) [
      | inr off ↦ idle (ap (hit key is_pending) e ∙ none_hit item off)
      | inl on ↦
          subst (λ n. S (if n == 0 then err already_resolved else ok tt))
            (sym (count-hit is_pending id w.store v ∙ ap (hit key is_pending) e ∙ one item on))
            (moved item _ a e (is_pending-eq item.status on)
              (λ k.
                find-update is_pending (with_status status) k id w.store (λ r. refl)
                ∙ touched_there (with_status status) id k w.store.rows item e on)
              refl)
    ]

-- Approving or rejecting answers 200 exactly when an admin resolves a pending request: it then has
-- the new status, no other request is touched, and one audit event that names the admin is asked
-- for. Every other answer leaves each request as it was and asks for no event. The table of requests
-- has its invariant.
pub resolve_approval-Settled :
    (luck : Luck) (principal : Identity) (id : ℕ) (verdict : Verdict) (w : World)
    → Inv w.store
    → Settled luck principal id verdict w
        (resolve_approval luck (some principal) (some id) (status_of verdict) w)
unfolding resolve_approval
resolve_approval-Settled luck principal id verdict w v =
    elim (Bool-cases (has_role principal admin)) [
      | inl a ↦ rw a (sets luck principal id verdict w luck.first v a)
      | inr n ↦ rw n (refused 403 w (λ h. omega (arith, h)) (λ k. refl) refl)
    ]
