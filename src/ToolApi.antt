-- ===== src/ToolApi.antt =====
-- gateway/internal/api/tools.go, approvals.go and the decoding of json.go: the handlers that evaluate
-- a tool call, which may create a request for an approval, and that list and resolve such requests.
-- Tracing spans are left out. A path id that is a negative number finds no row, and stands for one
-- that the table does not have.
pub mod Evaluating
pub mod Resolving
mod Tests
use sentrymesh.Base.{
  ℕ, String, Bool, true, false, not, List, [], ◌∷◌, ◌++◌, Option, none, some, str_eq, if◌then◌else◌,
  Result, ok, err,
}
use sentrymesh.Identity.{Identity, admin, has_role}
use sentrymesh.Json.{Arguments}
use sentrymesh.Tools.{Casing, Evaluation, ToolCall, Decision, allow, require_approval, deny}
use sentrymesh.Tools
use sentrymesh.Approval.{
  Codec, Status, pending, approved, rejected, Request, Store, Error, create, get, set_status,
  list_active,
}

pub record ToolEvaluationRequest : Type 0 where
  pub name : String
  pub arguments : Arguments

-- What `decodeJSON` makes of a body.
pub data Decoded : Type 0 where
  too_large malformed : Decoded
  decoded : ToolEvaluationRequest → Decoded

pub data EventType : Type 0 where
  tool_approval_requested : EventType  -- "TOOL_APPROVAL_REQUESTED"
  tool_approved : EventType  -- "TOOL_APPROVED"
  tool_rejected : EventType  -- "TOOL_REJECTED"

pub data Details : Type 0 where
  asked : Arguments → Details
  settled : String → Identity → Details  -- the stored arguments and the actor

-- audit.ToolEvent
pub record ToolEvent : Type 0 where
  pub timestamp : ℕ
  pub approval_id : ℕ
  pub event_type : EventType
  pub tool : String
  pub risk : ℕ
  pub status : Status
  pub details : Details

pub record World : Type 0 where
  pub store : Store
  pub events : List ToolEvent

-- What the world decides in one request: whether the database answers each of its two statements,
-- whether the audit store works, and the time.
pub record Luck : Type 0 where
  pub first : Bool
  pub second : Bool
  pub audit : Bool
  pub now : ℕ

pub data Body : Type 0 where
  failure : Body
  evaluation : Evaluation → Option ℕ → Body
  settlement : ℕ → Status → Body
  items : List Request → Body

pub record Response : Type 0 where
  pub status : ℕ
  pub body : Body

abbrev pub fails : ℕ → Response
fails status = record { status = status; body = failure }

abbrev pub answers : ℕ → Body → Response
answers status body = record { status = status; body = body }

-- A failed write is logged or ignored.
abbrev pub write_tool_event : Luck → ToolEvent → List ToolEvent → List ToolEvent
write_tool_event luck e events = if luck.audit then events ++ e ∷ [] else events

module _ (c : Casing) (codec : Codec) where
  abbrev pub requested : Luck → ToolEvaluationRequest → Evaluation → ℕ → ToolEvent
  requested luck req result id = record {
    timestamp = luck.now;
    approval_id = id;
    event_type = tool_approval_requested;
    tool = req.name;
    risk = result.risk;
    status = pending;
    details = asked req.arguments;
  }

  -- What follows `approvalStore.Create`.
  abbrev pub after_create :
      Luck
      → ToolEvaluationRequest
      → Evaluation
      → List ToolEvent
      → Result Error Request × Store
      → Response × World
  after_create luck req result events (err _, s) =
      (fails 500, record { store = s; events = events })
  after_create luck req result events (ok item, s) = (
    answers 202 (evaluation result (some item.id)),
    record { store = s; events = write_tool_event luck (requested luck req result item.id) events },
  )

  -- What follows `tools.Evaluate`.
  abbrev pub act_on :
      Luck → ToolEvaluationRequest → Evaluation → Decision → World → Response × World
  act_on luck req result require_approval w =
      after_create luck req result w.events
        (create codec luck.first luck.now req.name req.arguments result.risk result.reason w.store)
  act_on luck req result deny w = (answers 403 (evaluation result none), w)
  act_on luck req result allow w = (answers 200 (evaluation result none), w)

  abbrev pub call_of : ToolEvaluationRequest → Identity → ToolCall
  call_of req principal = record {
    name = req.name;
    arguments = req.arguments;
    identity = principal;
  }

  abbrev pub evaluate_for :
      Luck → ToolEvaluationRequest → Option Identity → World → Response × World
  evaluate_for luck req none w = (fails 401, w)
  evaluate_for luck req (some principal) w =
      let result = Tools.evaluate c (call_of req principal) in
      act_on luck req result result.decision w

  unfoldable pub tool_evaluation_handler :
      Luck → Option Identity → Decoded → World → Response × World
  tool_evaluation_handler luck principal too_large w = (fails 413, w)
  tool_evaluation_handler luck principal malformed w = (fails 400, w)
  tool_evaluation_handler luck principal (decoded req) w =
      if str_eq req.name "" then (fails 400, w) else evaluate_for luck req principal w

unfoldable pub list_approvals_handler : Bool → Store → Response
list_approvals_handler up s = elim (list_active up s) [
  | err _ ↦ fails 500
  | ok requests ↦ answers 200 (items requests)
]

-- `item, _ := approvalStore.Get(…)`: without a row, the item is the zero Request.
abbrev pub tool_of : Result Error Request → String
tool_of (ok item) = item.tool
tool_of (err _) = ""

abbrev pub risk_of : Result Error Request → ℕ
risk_of (ok item) = item.risk
risk_of (err _) = 0

abbrev pub arguments_of : Result Error Request → String
arguments_of (ok item) = item.arguments
arguments_of (err _) = ""

abbrev pub settling : Status → EventType
settling rejected = tool_rejected
settling _ = tool_approved

abbrev pub settled_event : Luck → Identity → ℕ → Status → Result Error Request → ToolEvent
settled_event luck principal id status item = record {
  timestamp = luck.now;
  approval_id = id;
  event_type = settling status;
  tool = tool_of item;
  risk = risk_of item;
  status = status;
  details = settled (arguments_of item) principal;
}

-- What follows `approvalStore.SetStatus`.
abbrev pub after_set :
    Luck
    → Identity
    → ℕ
    → Status
    → List ToolEvent
    → Result Error (Unit {0}) × Store
    → Response × World
after_set luck principal id status events (err _, s) =
    (fails 404, record { store = s; events = events })
after_set luck principal id status events (ok _, s) = (
  answers 200 (settlement id status),
  record {
    store = s;
    events =
        write_tool_event luck (settled_event luck principal id status (get luck.second id s))
          events;
  },
)

-- `none` is a missing identity, and a path value that is no number.
unfoldable pub resolve_approval :
    Luck → Option Identity → Option ℕ → Status → World → Response × World
resolve_approval luck none path_id status w = (fails 401, w)
resolve_approval luck (some principal) path_id status w =
    if not (has_role principal admin) then (fails 403, w) else elim path_id [
      | none ↦ (fails 400, w)
      | some id ↦
          after_set luck principal id status w.events (set_status luck.first id status w.store)
    ]

unfoldable pub approve_handler : Luck → Option Identity → Option ℕ → World → Response × World
unfolding resolve_approval
approve_handler luck principal path_id w = resolve_approval luck principal path_id approved w

unfoldable pub reject_handler : Luck → Option Identity → Option ℕ → World → Response × World
unfolding resolve_approval
reject_handler luck principal path_id w = resolve_approval luck principal path_id rejected w
