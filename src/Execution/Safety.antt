-- ===== src/Execution/Safety.antt =====
-- At most one run of a tool per approval, whatever the interleaving of the handlers
-- (gateway/internal/api/execute.go).
use sentrymesh.Base.{ℕ, ◌≤◌, ◌≡◌, ◌≢◌, ◌⊎◌, inl, inr, arith, Bool, true, false, Option, none, some}
use sentrymesh.Approval.{Codec, Status, executing, Store, find, new_store}
use sentrymesh.Approval.Lifecycle.{
  Op, approve, resolves, Inv, step, is_cleared, cleared, step-cleared,
}
use sentrymesh.Execution.{World, Call, Pc}
use sentrymesh.Execution.System.{System, Step, turn, other, Reach, start, later}
use sentrymesh.Execution.Turns.{
  status_at, holds, Turn, quiet, claims, runs, finishes, releases, advance-Turn,
}
use sentrymesh.Execution.Invariant.{count_runs, Reach-SysInv}

-- In every state that any number of execute handlers reach, interleaved with each other and with
-- handlers that create and resolve requests, and with any statement failing at any time, the
-- executor has run the tool of each approval at most once.
pub runs_at_most_once :
    {codec : Codec} {calls : ℕ → Call} {s : System}
    → Reach codec calls s
    → (k : ℕ) → count_runs k s.world.runs ≤ 1
runs_at_most_once r = (Reach-SysInv r).once

-- Two handlers never hold a claim on one approval, and a claimed approval is EXECUTING.
pub claims_exclusive :
    {codec : Codec} {calls : ℕ → Call} {s : System}
    → Reach codec calls s
    → (i j k : ℕ) → holds (s.pc i) ≡ some k
    → holds (s.pc j) ≡ some k
    → (i ≡ j) × (status_at k s.world.store ≡ some executing)
claims_exclusive r i j k hi hj = ((Reach-SysInv r).unique i j k hi hj, (Reach-SysInv r).held i k hi)

-- The step that approves request `k`.
abbrev pub IsApproval :
    {codec : Codec} {calls : ℕ → Call} {s t : System} → ℕ → Step codec calls s t → Type 0
IsApproval k (turn i env) = ⊥
IsApproval k (other {o} op) = o ≡ resolves true k approve

-- A run of the system in which request `k` was approved.
pub data WasApproved (codec : Codec) (calls : ℕ → Call) (k : ℕ)
    : (s : System) → Reach codec calls s → Type 0 where
  now :
      {s t : System} (r : Reach codec calls s) (st : Step codec calls s t)
      → IsApproval k st
      → WasApproved codec calls k t (later r st)
  before :
      {s t : System} (r : Reach codec calls s) (st : Step codec calls s t)
      → WasApproved codec calls k s r
      → WasApproved codec calls k t (later r st)

abbrev is_clear : Option Status → Bool
is_clear none = false
is_clear (some st) = is_cleared st

cleared-is_clear : (k : ℕ) (s : Store) → cleared (find k s.rows) ≡ is_clear (status_at k s)
cleared-is_clear k s = ground arith

Turn-clear :
    {w w' : World} {p p' : Pc}
    → Turn w p w' p'
    → ((k : ℕ) → holds p ≡ some k → status_at k w.store ≡ some executing)
    → (k : ℕ) → is_clear (status_at k w'.store) ≡ true
    → is_clear (status_at k w.store) ≡ true
Turn-clear (quiet st rs ho un) held k h = ground (arith, st k)
Turn-clear (claims id ok st rs ho) held k h = ground (arith, st k)
Turn-clear (runs id un ho st rs ho' un') held k h = ground (arith, st k)
Turn-clear (finishes id ho st rs ho' un') held k h = ground (arith, st k, held k)
Turn-clear (releases id ho un st rs ho' un') held k h = ground (arith, st k, held k)

Other-clear :
    (s : Store) (o : Op) (k : ℕ)
    → Inv s
    → is_clear (status_at k (step s o)) ≡ true
    → (o ≡ resolves true k approve) ⊎ (is_clear (status_at k s) ≡ true)
Other-clear s o k v h =
    ground (arith, step-cleared s o k v, cleared-is_clear k (step s o), cleared-is_clear k s)

clear-WasApproved :
    {codec : Codec} {calls : ℕ → Call} {s : System} (r : Reach codec calls s) (k : ℕ)
    → is_clear (status_at k s.world.store) ≡ true
    → WasApproved codec calls k s r
unfolding new_store find
clear-WasApproved start k h = cc
clear-WasApproved {codec} {calls} (later {s} r (turn i env)) k h = before r (turn i env) (
    clear-WasApproved r k (
      Turn-clear
        (advance-Turn codec env (calls i) s.world (s.pc i) (Reach-SysInv r).table
          ((Reach-SysInv r).held i))
        ((Reach-SysInv r).held i) k h))
clear-WasApproved {codec} {calls} (later {s} r (other {o} op)) k h =
    elim (Other-clear s.world.store o k (Reach-SysInv r).table h) [
      | inl e ↦ now r (other op) e
      | inr c ↦ before r (other op) (clear-WasApproved r k c)
    ]

-- A tool is run only for a request that was approved before, in the same run of the system.
pub run-WasApproved :
    {codec : Codec} {calls : ℕ → Call} {s : System} (r : Reach codec calls s) (k : ℕ)
    → count_runs k s.world.runs ≢ 0
    → WasApproved codec calls k s r
run-WasApproved r k h = clear-WasApproved r k (ground (arith, (Reach-SysInv r).logged k h))
