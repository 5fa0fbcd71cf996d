-- ===== src/Execution/Turns.antt =====
-- What one access of an execute handler does to the statuses of the requests and to its claim.
use sentrymesh.Base.{
  ℕ, ◌≡◌, refl, sym, ap, ◌∙◌, ◌⊎◌, inl, inr, arith, Bool, true, false, ◌∷◌, Option, none, some,
  ◌==◌, ==_iff, if◌then◌else◌, Result, ok, err, Option-cases, subst,
}
use sentrymesh.Sql.Laws.{touched, hit}
use sentrymesh.Approval.{
  Codec, Status, approved, executing, executed, Request, Store, find, update, is_claimable,
  is_executing, with_status, finished_at, claim_execution, finish_execution, fail_execution,
}
use sentrymesh.Executor
use sentrymesh.Executor.{Output, execute}
use sentrymesh.Identity.{Identity}
use sentrymesh.Approval.Races.{update_idle}
use sentrymesh.Approval.Lifecycle.{
  key, Inv, find-update, find_id, count-hit, claim_execution-Inv, finish_execution-Inv,
  fail_execution-Inv,
}
use sentrymesh.Execution.{
  Env, live, World, Call, Pc, entry, checked, claimed, started, failing, ran, finished, responded,
  enter, after_claim, after_execute, run_tool, after_finish, advance,
}

abbrev pub status_of_row : Option Request → Option Status
status_of_row none = none
status_of_row (some r) = some r.status

abbrev pub status_at : ℕ → Store → Option Status
status_at k s = status_of_row (find k s.rows)

-- The approval that a handler has claimed and not given back.
abbrev pub holds : Pc → Option ℕ
holds (claimed _ id _) = some id
holds (started _ id _) = some id
holds (failing id) = some id
holds (ran _ id _ _) = some id
holds _ = none

-- The same, until the tool has been run.
abbrev pub unrun : Pc → Option ℕ
unrun (claimed _ id _) = some id
unrun (started _ id _) = some id
unrun (failing id) = some id
unrun _ = none

-- The statuses after an access that gives the request at one id a new status.
abbrev pub Sets : ℕ → Status → Store → Store → Type 0
Sets id st s t = (k : ℕ) → status_at k t ≡ (if id == k then some st else status_at k s)

abbrev pub Same : Store → Store → Type 0
Same s t = (k : ℕ) → status_at k t ≡ status_at k s

-- An access, by its effect.
pub data Turn (w : World) (p : Pc) (w' : World) (p' : Pc) : Type 0 where
  quiet :
      Same w.store w'.store
      → w'.runs ≡ w.runs
      → ((k : ℕ) → holds p' ≡ some k → holds p ≡ some k)
      → ((k : ℕ) → unrun p' ≡ some k → unrun p ≡ some k)
      → Turn w p w' p'
  claims :
      (id : ℕ)
      → status_at id w.store ≡ some approved
      → Sets id executing w.store w'.store
      → w'.runs ≡ w.runs
      → holds p' ≡ some id
      → Turn w p w' p'
  runs :
      (id : ℕ)
      → unrun p ≡ some id
      → holds p ≡ some id
      → Same w.store w'.store
      → w'.runs ≡ id ∷ w.runs
      → holds p' ≡ some id
      → unrun p' ≡ none
      → Turn w p w' p'
  finishes :
      (id : ℕ)
      → holds p ≡ some id
      → Sets id executed w.store w'.store
      → w'.runs ≡ w.runs
      → holds p' ≡ none
      → unrun p' ≡ none
      → Turn w p w' p'
  releases :
      (id : ℕ)
      → holds p ≡ some id
      → unrun p ≡ some id
      → Sets id approved w.store w'.store
      → w'.runs ≡ w.runs
      → holds p' ≡ none
      → unrun p' ≡ none
      → Turn w p w' p'

-- A statement whose guard holds of the row at its id sets its status; else nothing changes.
update-Sets :
    (p : Request → Bool) (f : Request → Request) (id : ℕ) (st : Status) (s : Store)
    → ((r : Request) → (f r).id ≡ r.id)
    → ((r : Request) → (f r).status ≡ st)
    → hit key p (find id s.rows) ≡ 1
    → Sets id st s (update p f id s)
update-Sets p f id st s keeps sets h k = rw (find-update p f k id s keeps) (go (find k s.rows) refl)
  where
    here : (o : Option Request) → find k s.rows ≡ o → (id == k) ≡ true → find id s.rows ≡ o
    here o e q = subst (λ j. find j s.rows ≡ o) (sym ((==_iff id k).0 q)) e

    go :
        (o : Option Request)
        → find k s.rows ≡ o
        → status_of_row (touched key p f id o) ≡ (if id == k then some st else status_of_row o)
    go none e = ground (arith, here none e)
    go (some r) e = ground (arith, here (some r) e, find_id k s.rows r e, sets r)

same : (s : Store) → Same s s
same s k = refl

executing-hit :
    (id : ℕ) (s : Store)
    → status_at id s ≡ some executing
    → hit key is_executing (find id s.rows) ≡ 1
executing-hit id s h = ground arith

enter_quiet :
    (env : Env) (call : Call) (w : World)
    → (holds (enter env call w) ≡ none) × (unrun (enter env call w) ≡ none)
unfolding enter
enter_quiet env call w = ground arith

check-Turn : (env : Env) (call : Call) (w : World) → Turn w entry w (enter env call w)
check-Turn env call w =
    let q = enter_quiet env call w in quiet (same w.store) refl (λ k h. cc q.0) (λ k h. cc q.1)

hit-cases : (p : Request → Bool) (o : Option Request) → (hit key p o ≡ 0) ⊎ (hit key p o ≡ 1)
hit-cases p o = ground arith

claimable-approved :
    (id : ℕ) (s : Store)
    → hit key is_claimable (find id s.rows) ≡ 1
    → status_at id s ≡ some approved
claimable-approved id s h = ground arith

claim-Turn :
    (up : Bool) (principal : Identity) (id : ℕ) (item : Request) (w : World)
    → Inv w.store
    → Turn w
        (checked principal id item)
        (record w { store = (claim_execution up id w.store).1 })
        (after_claim principal id item (claim_execution up id w.store).0)
unfolding claim_execution
claim-Turn false principal id item w v = quiet (same w.store) refl (λ k h. cc) (λ k h. cc)
claim-Turn true principal id item w v = elim (hit-cases is_claimable (find id w.store.rows)) [
  | inl none_there ↦
      let (idle, stays) =
        update_idle is_claimable (with_status executing) id w.store (λ r. refl) v none_there in
      rw idle (quiet (λ k. ap status_of_row (stays k)) refl (λ k h. cc) (λ k h. cc))
  | inr there ↦ rw (count-hit is_claimable id w.store v ∙ there) (
      claims id (claimable-approved id w.store there)
        (update-Sets is_claimable (with_status executing) id executing w.store (λ r. refl)
          (λ r. refl) there)
        refl refl)
]

run-Turn :
    (codec : Codec) (env : Env) (principal : Identity) (id : ℕ) (item : Request) (w : World)
    → Turn w
        (started principal id item)
        (run_tool codec env principal id item w).0
        (run_tool codec env principal id item w).1
unfolding run_tool
run-Turn codec env principal id item w = elim (Option-cases (codec.unmarshal item.arguments)) [
  | inl e ↦ rw (e, run_tool) (quiet (same w.store) refl (λ k h. h) (λ k h. h))
  | inr (arguments, e) ↦
      rw (e, run_tool) (executed_or_not (execute env.cancelled item.tool arguments))
]
  where
    executed_or_not :
        (outcome : Result Executor.Error Output)
        → Turn w
            (started principal id item)
            (after_execute principal id item w outcome).0
            (after_execute principal id item w outcome).1
    executed_or_not (err e) = quiet (same w.store) refl (λ k h. h) (λ k h. h)
    executed_or_not (ok result) = runs id refl refl (same w.store) refl refl refl

run_tool-store :
    (codec : Codec) (env : Env) (principal : Identity) (id : ℕ) (item : Request) (w : World)
    → (run_tool codec env principal id item w).0.store ≡ w.store
unfolding run_tool
run_tool-store codec env principal id item w = ground arith

fail-Turn :
    (up : Bool) (id : ℕ) (w : World)
    → status_at id w.store ≡ some executing
    → Turn w (failing id) (record w { store = (fail_execution up id w.store).1 }) (responded 500)
unfolding fail_execution
fail-Turn false id w h = quiet (same w.store) refl (λ k q. cc) (λ k q. cc)
fail-Turn true id w h =
    releases id refl refl
      (update-Sets is_executing (with_status approved) id approved w.store (λ r. refl) (λ r. refl)
        (executing-hit id w.store h))
      refl refl refl

finish-Turn :
    (up : Bool) (now : ℕ) (principal : Identity) (id : ℕ) (item : Request) (result : Output)
    (w : World)
    → status_at id w.store ≡ some executing
    → Turn w
        (ran principal id item result)
        (record w { store = (finish_execution up now id w.store).1 })
        (after_finish principal id item result (finish_execution up now id w.store).0)
unfolding finish_execution
finish-Turn false now principal id item result w h =
    quiet (same w.store) refl (λ k q. cc) (λ k q. cc)
finish-Turn true now principal id item result w h =
    finishes id refl
      (update-Sets is_executing (finished_at now) id executed w.store (λ r. refl) (λ r. refl)
        (executing-hit id w.store h))
      refl refl refl

-- Every access is one of the five kinds, if a handler's claim shows in the table.
pub advance-Turn :
    (codec : Codec) (env : Env) (call : Call) (w : World) (p : Pc)
    → Inv w.store
    → ((k : ℕ) → holds p ≡ some k → status_at k w.store ≡ some executing)
    → Turn w p (advance codec env call w p).0 (advance codec env call w p).1
unfolding advance
advance-Turn codec env call w entry v held = check-Turn env call w
advance-Turn codec env call w (checked principal id item) v held =
    claim-Turn (live env) principal id item w v
advance-Turn codec env call w (claimed principal id item) v held =
    quiet (same w.store) refl (λ k h. h) (λ k h. h)
advance-Turn codec env call w (started principal id item) v held =
    run-Turn codec env principal id item w
advance-Turn codec env call w (failing id) v held = fail-Turn (live env) id w (held id refl)
advance-Turn codec env call w (ran principal id item result) v held =
    finish-Turn (live env) env.now principal id item result w (held id refl)
advance-Turn codec env call w (finished principal id item result) v held =
    quiet (same w.store) refl (λ k h. cc) (λ k h. cc)
advance-Turn codec env call w (responded code) v held =
    quiet (same w.store) refl (λ k h. h) (λ k h. h)

pub advance-Inv :
    (codec : Codec) (env : Env) (call : Call) (w : World) (p : Pc)
    → Inv w.store
    → Inv (advance codec env call w p).0.store
unfolding advance
advance-Inv codec env call w (checked principal id item) v =
    claim_execution-Inv (live env) id w.store v
advance-Inv codec env call w (failing id) v = fail_execution-Inv (live env) id w.store v
advance-Inv codec env call w (ran principal id item result) v =
    finish_execution-Inv (live env) env.now id w.store v
advance-Inv codec env call w (started principal id item) v =
    subst Inv (sym (run_tool-store codec env principal id item w)) v
advance-Inv codec env call w entry v = v
advance-Inv codec env call w (claimed principal id item) v = v
advance-Inv codec env call w (finished principal id item result) v = v
advance-Inv codec env call w (responded code) v = v
