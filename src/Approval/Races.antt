-- ===== src/Approval/Races.antt =====
-- Two callers on one request: who resolves it, and who may execute it
-- (gateway/internal/approval/store.go).
use sentrymesh.Base.{
  ℕ, ◌≡◌, refl, sym, subst, ==_iff, ◌∙◌, ◌≢◌, inl, inr, Bool-cases, ◌↔◌, arith, Bool, true, false,
  Option, none, some, ◌==◌, ok, err,
}
use sentrymesh.Sql.Laws.{touched, hit}
use sentrymesh.Approval.{
  pending, approved, executing, executed, same_status, update, Request, Store, already_resolved,
  find, count, is_pending, is_claimable, with_status, set_status, claim_execution,
}
use sentrymesh.Approval.Lifecycle.{
  key, Inv, find_id, find-update, count-hit, Verdict, status_of, approve, reject, set_status-Inv,
  claim_execution-Inv,
}

-- A statement that has fired leaves no row at its id that its guard holds of.
update_spent :
    (p : Request → Bool) (f : Request → Request) (id : ℕ) (s : Store)
    → ((r : Request) → (f r).id ≡ r.id)
    → ((r : Request) → p (f r) ≡ false)
    → hit key p (find id (update p f id s).rows) ≡ 0
update_spent p f id s keeps off =
    rw (find-update p f id id s keeps) (go (find id s.rows) (find_id id s.rows))
  where
    go :
        (o : Option Request)
        → ((r : Request) → o ≡ some r → r.id ≡ id)
        → hit key p (touched key p f id o) ≡ 0
    go none at_id = refl
    go (some r) at_id = ground (arith, at_id r refl, off r)

-- Where the guard holds of no row at the id, a statement affects nothing.
pub update_idle :
    (p : Request → Bool) (f : Request → Request) (id : ℕ) (s : Store)
    → ((r : Request) → (f r).id ≡ r.id)
    → Inv s
    → hit key p (find id s.rows) ≡ 0
    → (count p id s ≡ 0) × ((k : ℕ) → find k (update p f id s).rows ≡ find k s.rows)
update_idle p f id s keeps v h =
    (count-hit p id s v ∙ h, λ k. find-update p f k id s keeps ∙ same k (find k s.rows) refl)
  where
    here :
        (k : ℕ) (r : Request)
        → find k s.rows ≡ some r
        → (r.id == id) ≡ true
        → find id s.rows ≡ some r
    here k r e q =
        subst (λ j. find j s.rows ≡ some r) (sym (find_id k s.rows r e) ∙ (==_iff r.id id).0 q) e

    same : (k : ℕ) (o : Option Request) → find k s.rows ≡ o → touched key p f id o ≡ o
    same k none e = refl
    same k (some r) e = elim (Bool-cases (r.id == id)) [
      | inl q ↦ ground (arith, here k r e q)
      | inr q ↦ rw q refl
    ]

status_of-Verdict : (v : Verdict) → same_status (status_of v) pending ≡ false
status_of-Verdict approve = refl
status_of-Verdict reject = refl

status_of-ne_executed : (v : Verdict) → status_of v ≢ executed
status_of-ne_executed approve e = cc
status_of-ne_executed reject e = cc

-- After a call that resolved a request, every further approval or rejection of it that the
-- database executes returns "already resolved" and leaves every row as it was.
pub set_status_once :
    (up : Bool) (id : ℕ) (first second : Verdict) (s : Store)
    → Inv s
    → (set_status up id (status_of first) s).0 ≡ ok tt
    → let s' = (set_status up id (status_of first) s).1 in
      ((set_status true id (status_of second) s').0 ≡ err already_resolved)
      × ((k : ℕ) → find k (set_status true id (status_of second) s').1.rows ≡ find k s'.rows)
unfolding set_status
set_status_once false id first second s v h = cc
set_status_once true id first second s v h = (rw idle.0 refl, idle.1)
  where
    s' : Store
    s' = update is_pending (with_status (status_of first)) id s

    idle :
        (count is_pending id s' ≡ 0)
        × ((k : ℕ)
            → find k (update is_pending (with_status (status_of second)) id s').rows
              ≡ find k s'.rows)
    idle =
        update_idle is_pending (with_status (status_of second)) id s' (λ r. refl)
          (set_status-Inv true id (status_of first) s (status_of-ne_executed first) v)
          (update_spent is_pending (with_status (status_of first)) id s (λ r. refl)
            (λ r. status_of-Verdict first))

-- A claim succeeds exactly on an approved request without a time of execution.
pub claim_execution_iff :
    (id : ℕ) (s : Store)
    → Inv s
    → ((claim_execution true id s).0 ≡ ok true)
      ↔ ((r : Request) × (find id s.rows ≡ some r) × (r.status ≡ approved) × (r.executed_at ≡ none))
unfolding claim_execution
claim_execution_iff id s v = (
  λ h. ground (arith, count-hit is_claimable id s v),
  λ h. ground (arith, count-hit is_claimable id s v),
)

-- After a successful claim, a second claim of the same request returns false and changes no row.
pub claim_execution_once :
    (up : Bool) (id : ℕ) (s : Store)
    → Inv s
    → (claim_execution up id s).0 ≡ ok true
    → let s' = (claim_execution up id s).1 in
      ((claim_execution true id s').0 ≡ ok false)
      × ((k : ℕ) → find k (claim_execution true id s').1.rows ≡ find k s'.rows)
unfolding claim_execution
claim_execution_once false id s v h = cc
claim_execution_once true id s v h = (rw idle.0 refl, idle.1)
  where
    s' : Store
    s' = update is_claimable (with_status executing) id s

    idle :
        (count is_claimable id s' ≡ 0)
        × ((k : ℕ)
            → find k (update is_claimable (with_status executing) id s').rows ≡ find k s'.rows)
    idle =
        update_idle is_claimable (with_status executing) id s' (λ r. refl)
          (claim_execution-Inv true id s v)
          (update_spent is_claimable (with_status executing) id s (λ r. refl) (λ r. refl))
