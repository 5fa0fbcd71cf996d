-- ===== src/Execution.antt =====
-- gateway/internal/api/execute.go: ExecuteApprovalHandler, one access to the store or the audit log
-- at a time, so that handlers can be interleaved. `advance` is the code between two accesses.
-- Tracing spans change no state and are left out. A path id that is a negative number finds no row,
-- and stands for one that the table does not have.
mod System
mod Turns
mod Invariant
pub mod Safety
pub mod Orphans
pub mod Handler
mod Tests
use sentrymesh.Base.{
  ℕ, String, Bool, true, false, ◌&&◌, ◌||◌, not, List, [], ◌∷◌, ◌++◌, Option, none, some,
  if◌then◌else◌, is_none, Result, ok, err,
}
use sentrymesh.Identity.{Identity, admin, has_role}
use sentrymesh.Executor
use sentrymesh.Executor.{Output, execute}
use sentrymesh.Approval.{
  Codec, Error, Status, approved, executing, executed, same_status, Request, Store, get,
  claim_execution, finish_execution, fail_execution,
}

-- What the world decides at one access: whether the request's context is cancelled, whether the
-- database and the audit store work, and the time.
pub record Env : Type 0 where
  pub cancelled : Bool
  pub db : Bool
  pub audit : Bool
  pub now : ℕ

-- A statement under a cancelled context returns an error and is not executed.
abbrev pub live : Env → Bool
live env = env.db && not env.cancelled

pub data EventType : Type 0 where
  tool_approved : EventType  -- "TOOL_APPROVED"
  tool_rejected : EventType  -- "TOOL_REJECTED"
  tool_execution_started : EventType  -- "TOOL_EXECUTION_STARTED"
  tool_execution_succeeded : EventType  -- "TOOL_EXECUTION_SUCCEEDED"

-- audit.ToolEvent, with the actor as the only detail
pub record ToolEvent : Type 0 where
  pub timestamp : ℕ
  pub approval_id : ℕ
  pub event_type : EventType
  pub tool : String
  pub risk : ℕ
  pub status : Status
  pub actor : Identity

-- The shared state. `runs` is a history variable: the approvals whose tool the executor has run.
pub record World : Type 0 where
  pub store : Store
  pub events : List ToolEvent
  pub runs : List ℕ

-- `_ = auditStore.WriteToolEvent(…)`: a failed write is ignored.
abbrev pub write_tool_event : Env → ToolEvent → World → World
write_tool_event env e w = record w {
  events = if env.audit && not env.cancelled then w.events ++ e ∷ [] else w.events;
}

-- The principal of the request's context, and the parsed path value.
pub record Call : Type 0 where
  pub principal : Option Identity
  pub path_id : Option ℕ

-- Where a handler stands: the next access that it makes.
pub data Pc : Type 0 where
  entry : Pc
  checked : Identity → ℕ → Request → Pc  -- before ClaimExecution
  claimed : Identity → ℕ → Request → Pc  -- before the first audit event
  started : Identity → ℕ → Request → Pc  -- before the arguments are decoded and the tool is run
  failing : ℕ → Pc  -- before FailExecution
  ran : Identity → ℕ → Request → Output → Pc  -- before FinishExecution
  finished : Identity → ℕ → Request → Output → Pc  -- before the last audit event
  responded : ℕ → Pc

-- The three tests on the item.
unfoldable pub check_item : Identity → ℕ → Request → Pc
check_item principal id item =
    if not (is_none item.executed_at) || same_status item.status executed
    then responded 409
    else if same_status item.status executing
    then responded 409
    else if not (same_status item.status approved)
    then responded 409
    else checked principal id item

unfoldable pub enter : Env → Call → World → Pc
unfolding check_item
enter env call w = elim call.principal [
  | none ↦ responded 401
  | some principal ↦ if not (has_role principal admin) then responded 403 else elim call.path_id [
    | none ↦ responded 400
    | some id ↦ elim (get (live env) id w.store) [
      | err _ ↦ responded 404
      | ok item ↦ check_item principal id item
    ]
  ]
]

abbrev pub tool_event : Env → ℕ → Request → EventType → Status → Identity → ToolEvent
tool_event env id item event_type status actor = record {
  timestamp = env.now;
  approval_id = id;
  event_type = event_type;
  tool = item.tool;
  risk = item.risk;
  status = status;
  actor = actor;
}

abbrev pub after_claim : Identity → ℕ → Request → Result Error Bool → Pc
after_claim principal id item (ok true) = claimed principal id item
after_claim principal id item (ok false) = responded 409
after_claim principal id item (err _) = responded 409

abbrev pub after_execute :
    Identity → ℕ → Request → World → Result Executor.Error Output → World × Pc
after_execute principal id item w (err _) = (w, failing id)
after_execute principal id item w (ok result) =
    (record w { runs = id ∷ w.runs }, ran principal id item result)

-- json.Unmarshal of the stored arguments, then executor.Execute
unfoldable pub run_tool : Codec → Env → Identity → ℕ → Request → World → World × Pc
run_tool codec env principal id item w = elim (codec.unmarshal item.arguments) [
  | none ↦ (w, failing id)
  | some arguments ↦ after_execute principal id item w (execute env.cancelled item.tool arguments)
]

abbrev pub after_finish : Identity → ℕ → Request → Output → Result Error (Unit {0}) → Pc
after_finish principal id item result (ok _) = finished principal id item result
after_finish principal id item result (err _) = responded 500

unfoldable pub advance : Codec → Env → Call → World → Pc → World × Pc
unfolding enter run_tool
advance codec env call w entry = (w, enter env call w)
advance codec env call w (checked principal id item) =
    let (outcome, store) = claim_execution (live env) id w.store in
    (record w { store = store }, after_claim principal id item outcome)
advance codec env call w (claimed principal id item) = (
  write_tool_event env (tool_event env id item tool_execution_started executing principal) w,
  started principal id item,
)
advance codec env call w (started principal id item) = run_tool codec env principal id item w
advance codec env call w (failing id) =
    (record w { store = (fail_execution (live env) id w.store).1 }, responded 500)
advance codec env call w (ran principal id item result) =
    let (outcome, store) = finish_execution (live env) env.now id w.store in
    (record w { store = store }, after_finish principal id item result outcome)
advance codec env call w (finished principal id item result) = (
  write_tool_event env (tool_event env id item tool_execution_succeeded executed principal) w,
  responded 200,
)
advance codec env call w (responded code) = (w, responded code)
