-- ===== src/Execution/Handler.antt =====
-- One execute handler from its entry to its answer (gateway/internal/api/execute.go).
use sentrymesh.Base.{
  ℕ, suc, ◌≤◌, ◌≡◌, refl, sym, ap, subst, ◌≢◌, Option-cases, ◌⊎◌, inl, inr, arith, true, List, [],
  ◌∷◌, none, some, ok, length,
}
use sentrymesh.Identity.{Identity, admin, has_role}
use sentrymesh.Json.{Arguments}
use sentrymesh.Executor.{Output, execute}
use sentrymesh.Approval.{
  Codec, approved, executing, executed, Request, Store, find, update, is_claimable, is_executing,
  with_status, finished_at, get, claim_execution, finish_execution,
}
use sentrymesh.Approval.Lifecycle.{Inv, find_id, find-update}
use sentrymesh.Approval.Races.{claim_execution_iff}
use sentrymesh.Execution.{
  Env, live, World, Call, Pc, entry, checked, claimed, started, failing, ran, finished, responded,
  enter, run_tool, advance,
}

-- The handler alone: one access for each element of the list.
unfoldable pub drive : Codec → Call → List Env → World → Pc → World × Pc
drive codec call [] w p = (w, p)
drive codec call (env ∷ envs) w p =
    let (w', p') = advance codec env call w p in drive codec call envs w' p'

-- How many accesses a handler is from its answer, at most.
abbrev pub rank : Pc → ℕ
rank entry = 6
rank (checked _ _ _) = 5
rank (claimed _ _ _) = 4
rank (started _ _ _) = 3
rank (failing _) = 1
rank (ran _ _ _ _) = 2
rank (finished _ _ _ _) = 1
rank (responded _) = 0

rank-enter : (env : Env) (call : Call) (w : World) → rank (enter env call w) ≤ 5
unfolding enter
rank-enter env call w = ground arith

rank-advance :
    (codec : Codec) (env : Env) (call : Call) (w : World) (p : Pc) (n : ℕ)
    → rank p ≤ suc n
    → rank (advance codec env call w p).1 ≤ n
unfolding advance
rank-advance codec env call w entry n h = omega (arith, rank-enter env call w)
rank-advance codec env call w (checked _ _ _) n h = ground arith
rank-advance codec env call w (claimed _ _ _) n h = omega arith
rank-advance codec env call w (started _ _ _) n h = ground arith
rank-advance codec env call w (failing _) n h = omega arith
rank-advance codec env call w (ran _ _ _ _) n h = ground arith
rank-advance codec env call w (finished _ _ _ _) n h = omega arith
rank-advance codec env call w (responded _) n h = omega arith

drive-responds :
    (codec : Codec) (call : Call) (envs : List Env) (w : World) (p : Pc)
    → rank p ≤ length envs
    → (code : ℕ) × ((drive codec call envs w p).1 ≡ responded code)
unfolding drive
drive-responds codec call [] w (responded code) h = (code, refl)
drive-responds codec call [] w entry h = absurd (omega arith)
drive-responds codec call [] w (checked _ _ _) h = absurd (omega arith)
drive-responds codec call [] w (claimed _ _ _) h = absurd (omega arith)
drive-responds codec call [] w (started _ _ _) h = absurd (omega arith)
drive-responds codec call [] w (failing _) h = absurd (omega arith)
drive-responds codec call [] w (ran _ _ _ _) h = absurd (omega arith)
drive-responds codec call [] w (finished _ _ _ _) h = absurd (omega arith)
drive-responds codec call (env ∷ envs) w p h =
    drive-responds codec call envs _ _ (rank-advance codec env call w p (length envs) h)

-- Whatever fails on the way, the handler has answered after six accesses.
pub handler_responds :
    (codec : Codec) (call : Call) (a b c d e f : Env) (w : World)
    → (code : ℕ) × ((drive codec call (a ∷ b ∷ c ∷ d ∷ e ∷ f ∷ []) w entry).1 ≡ responded code)
handler_responds codec call a b c d e f w =
    drive-responds codec call (a ∷ b ∷ c ∷ d ∷ e ∷ f ∷ []) w entry (omega arith)

abbrev pub all_in : Env → List Env
all_in env = env ∷ env ∷ env ∷ env ∷ env ∷ env ∷ []

abbrev pub call_by : Identity → ℕ → Call
call_by principal id = record { principal = some principal; path_id = some id }

entered :
    (env : Env) (principal : Identity) (id : ℕ) (item : Request) (w : World)
    → live env ≡ true
    → has_role principal admin ≡ true
    → find id w.store.rows ≡ some item
    → item.status ≡ approved
    → item.executed_at ≡ none
    → enter env (call_by principal id) w ≡ checked principal id item
unfolding enter get
entered env principal id item w l a f st x = ground arith

claim_ok :
    (env : Env) (id : ℕ) (item : Request) (s : Store)
    → Inv s
    → live env ≡ true
    → find id s.rows ≡ some item
    → item.status ≡ approved
    → item.executed_at ≡ none
    → (claim_execution (live env) id s).0 ≡ ok true
claim_ok env id item s v l f st x = rw l ((claim_execution_iff id s v).1 (item, f, st, x))

run_ok :
    (codec : Codec) (env : Env) (principal : Identity) (id : ℕ) (item : Request)
    (arguments : Arguments) (result : Output) (w : World)
    → codec.unmarshal item.arguments ≡ some arguments
    → execute env.cancelled item.tool arguments ≡ ok result
    → run_tool codec env principal id item w
      ≡ (record w { runs = id ∷ w.runs }, ran principal id item result)
unfolding run_tool
run_ok codec env principal id item arguments result w u ex = rw (u, run_tool) (rw ex refl)

finish_ok :
    (env : Env) (id : ℕ) (s : Store)
    → live env ≡ true
    → (finish_execution (live env) env.now id s).0 ≡ ok tt
unfolding finish_execution
finish_ok env id s l = rw l refl

claimed_then_finished :
    (env : Env) (id : ℕ) (item : Request) (s : Store)
    → live env ≡ true
    → find id s.rows ≡ some item
    → item.status ≡ approved
    → item.executed_at ≡ none
    → find id (finish_execution (live env) env.now id (claim_execution (live env) id s).1).1.rows
      ≡ some (record item { status = executed; executed_at = some env.now })
unfolding claim_execution finish_execution
claimed_then_finished env id item s l f st x = rw l (
    ground (
      arith,
      find_id id s.rows item f,
      find-update is_claimable (with_status executing) id id s (λ r. refl),
      find-update is_executing (finished_at env.now) id id
          (update is_claimable (with_status executing) id s) (λ r. refl),
    ))

-- An admin's request for an approved, unexecuted item with decodable arguments and an executor,
-- when nothing fails: the answer is 200, the tool has been run, and the row is EXECUTED.
pub handler_executes :
    (codec : Codec) (env : Env) (principal : Identity) (id : ℕ) (item : Request)
    (arguments : Arguments) (result : Output) (w : World)
    → Inv w.store
    → live env ≡ true
    → has_role principal admin ≡ true
    → find id w.store.rows ≡ some item
    → item.status ≡ approved
    → item.executed_at ≡ none
    → codec.unmarshal item.arguments ≡ some arguments
    → execute env.cancelled item.tool arguments ≡ ok result
    → let (w', p') = drive codec (call_by principal id) (all_in env) w entry in
      (p' ≡ responded 200)
      × (w'.runs ≡ id ∷ w.runs)
      × (find id w'.store.rows
          ≡ some (record item { status = executed; executed_at = some env.now }))
unfolding drive advance
handler_executes codec env principal id item arguments result w v l a f st x u ex =
    rw (entered env principal id item w l a f st x) (
      rw (claim_ok env id item w.store v l f st x) (
        rw (run_ok codec env principal id item arguments result _ u ex) (
          rw (finish_ok env id (claim_execution (live env) id w.store).1 l)
            (refl, refl, claimed_then_finished env id item w.store l f st x))))

-- An answer that refuses the request before anything is done.
abbrev pub Refused : Pc → Type 0
Refused (responded code) = (code ≡ 401) ⊎ (code ≡ 403) ⊎ (code ≡ 400) ⊎ (code ≡ 404) ⊎ (code ≡ 409)
Refused _ = ⊥

enter-Refused :
    (env : Env) (call : Call) (w : World)
    → ((id : ℕ) (item : Request)
        → call.path_id ≡ some id
        → find id w.store.rows ≡ some item
        → item.status ≢ approved)
    → Refused (enter env call w)
unfolding enter get
enter-Refused env call w h = elim (Option-cases call.path_id) [
  | inl e ↦ ground arith
  | inr (id, e) ↦ elim (Option-cases (find id w.store.rows)) [
    | inl f ↦ ground arith
    | inr (item, f) ↦ ground (arith, h id item e f)
  ]
]

drive-Refused :
    (codec : Codec) (call : Call) (envs : List Env) (w : World) (p : Pc)
    → Refused p
    → drive codec call envs w p ≡ (w, p)
unfolding drive advance
drive-Refused codec call [] w p h = refl
drive-Refused codec call (env ∷ envs) w (responded code) h =
    drive-Refused codec call envs w (responded code) h
drive-Refused codec call (env ∷ envs) w _ h = elim h [ ]

-- A request that is not APPROVED is never executed and never changed by the handler, nor is one
-- that is missing: the world is as before and the answer is 400, 401, 403, 404 or 409.
pub handler_refuses :
    (codec : Codec) (call : Call) (env : Env) (envs : List Env) (w : World)
    → ((id : ℕ) (item : Request)
        → call.path_id ≡ some id
        → find id w.store.rows ≡ some item
        → item.status ≢ approved)
    → ((drive codec call (env ∷ envs) w entry).0 ≡ w)
      × Refused (drive codec call (env ∷ envs) w entry).1
unfolding drive advance
handler_refuses codec call env envs w h =
    let no = enter-Refused env call w h in
    let e = drive-Refused codec call envs w (enter env call w) no in
    (ap (λ (q : World × Pc). q.0) e, subst Refused (sym (ap (λ (q : World × Pc). q.1) e)) no)
