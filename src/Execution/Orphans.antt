-- ===== src/Execution/Orphans.antt =====
-- Requests that stay EXECUTING for ever: how they come about, and that nothing moves them
-- (gateway/internal/api/execute.go).
use sentrymesh.Base.{ℕ, ◌≡◌, refl, ◌∙◌, ◌≢◌, inl, arith, true, some}
use sentrymesh.Approval.{Codec, executing}
use sentrymesh.Identity.{Identity, admin, has_role}
use sentrymesh.Executor.{execute}
use sentrymesh.Approval.{Request, fail_execution, get}
use sentrymesh.Execution.{Env, live, World, Call, Pc, started, responded, enter, advance}
use sentrymesh.Execution.System.{System, at, Step, turn, other, Reach, later}
use sentrymesh.Execution.Turns.{
  status_at, holds, Turn, quiet, claims, runs, finishes, releases, advance-Turn,
}
use sentrymesh.Execution.Invariant.{SysInv, Other-keeps, Reach-SysInv}

-- A request that is EXECUTING while no handler holds a claim on it.
abbrev pub IsOrphan : ℕ → System → Type 0
IsOrphan k s = (status_at k s.world.store ≡ some executing) × ((i : ℕ) → holds (s.pc i) ≢ some k)

pub data Leads (codec : Codec) (calls : ℕ → Call) (s : System) : System → Type 0 where
  here : Leads codec calls s s
  next : {t u : System} → Leads codec calls s t → Step codec calls t u → Leads codec calls s u

Turn-orphan :
    {w w' : World} {p p' : Pc} (pc : ℕ → Pc) (i : ℕ)
    → Turn w p w' p'
    → pc i ≡ p
    → (k : ℕ) → status_at k w.store ≡ some executing
    → ((j : ℕ) → holds (pc j) ≢ some k)
    → (status_at k w'.store ≡ some executing) × ((j : ℕ) → holds (at pc i p' j) ≢ some k)
Turn-orphan pc i (quiet st rs ho un) e k h free =
    (ground (arith, st k), λ j q. ground (arith, free j, free i, ho k))
Turn-orphan pc i (claims id ok st rs ho) e k h free =
    (ground (arith, st k), λ j q. ground (arith, free j, free i, st k))
Turn-orphan pc i (runs id un ho st rs ho' un') e k h free =
    (ground (arith, st k), λ j q. ground (arith, free j, free i))
Turn-orphan pc i (finishes id ho st rs ho' un') e k h free =
    (ground (arith, st k, free i), λ j q. ground (arith, free j, free i))
Turn-orphan pc i (releases id ho un st rs ho' un') e k h free =
    (ground (arith, st k, free i), λ j q. ground (arith, free j, free i))

Step-IsOrphan :
    {codec : Codec} {calls : ℕ → Call} {s t : System} (k : ℕ)
    → Step codec calls s t
    → SysInv s.world s.pc
    → IsOrphan k s
    → IsOrphan k t
Step-IsOrphan {codec} {calls} {s} k (turn i env) v (h, free) =
    Turn-orphan s.pc i (advance-Turn codec env (calls i) s.world (s.pc i) v.table (v.held i)) refl k
      h free
Step-IsOrphan {s = s} k (other op) v (h, free) =
    (Other-keeps s.world.store k op v.table (inl h) ∙ h, free)

Leads-Reach :
    {codec : Codec} {calls : ℕ → Call} {s t : System}
    → Reach codec calls s
    → Leads codec calls s t
    → Reach codec calls t
Leads-Reach r here = r
Leads-Reach r (next l st) = later (Leads-Reach r l) st

-- No handler ever gives such a request back: it stays EXECUTING in all that follows, whatever
-- handlers run.
pub IsOrphan-stays :
    {codec : Codec} {calls : ℕ → Call} {s t : System} (k : ℕ)
    → Reach codec calls s
    → IsOrphan k s
    → Leads codec calls s t
    → IsOrphan k t
IsOrphan-stays k r o here = o
IsOrphan-stays k r o (next l st) =
    Step-IsOrphan k st (Reach-SysInv (Leads-Reach r l)) (IsOrphan-stays k r o l)

-- A claimed request whose handler's context is cancelled before the tool runs becomes one: the
-- executor returns the context's error, FailExecution is called with the cancelled context and is
-- not executed, and the handler answers 500.
pub cancelled_strands :
    (codec : Codec) (env env' : Env) (call : Call) (principal : Identity) (id : ℕ) (item : Request)
    (w : World)
    → env.cancelled ≡ true
    → env'.cancelled ≡ true
    → status_at id w.store ≡ some executing
    → let (w₁, p₁) = advance codec env call w (started principal id item) in
      let (w₂, p₂) = advance codec env' call w₁ p₁ in
      (p₂ ≡ responded 500) × (status_at id w₂.store ≡ some executing) × (w₂.runs ≡ w.runs)
unfolding advance execute fail_execution
cancelled_strands codec env env' call principal id item w c c' h = ground arith

-- An execute request for it is answered 409, whoever asks.
pub executing_conflict :
    (env : Env) (principal : Identity) (id : ℕ) (w : World)
    → live env ≡ true
    → has_role principal admin ≡ true
    → status_at id w.store ≡ some executing
    → enter env (record { principal = some principal; path_id = some id }) w ≡ responded 409
unfolding enter get
executing_conflict env principal id w l a h = ground arith
