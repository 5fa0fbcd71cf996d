-- ===== src/ToolApi/Tests.antt =====
-- Runs of the handlers of tool calls and approvals, and their theorems at concrete requests.
use sentrymesh.Base.{◌≡◌, refl, true, [], ◌∷◌, some, str_eq, lookup}
use sentrymesh.Identity.{Identity, admin}
use sentrymesh.Json.{text}
use sentrymesh.Tools.{Casing, evaluate, evaluate_send_email}
use sentrymesh.Tools
use sentrymesh.Sql.{affected, update_rows}
use sentrymesh.Approval.{Codec, new_store, create, insert_row, set_status}
use sentrymesh.Approval.Lifecycle.{new_store-Inv, create-Inv, approve, status_of}
use sentrymesh.ToolApi.{
  ToolEvaluationRequest, decoded, World, Luck, tool_evaluation_handler, resolve_approval,
  approve_handler,
}
use sentrymesh.ToolApi.Evaluating.{Meaning, tool_evaluation_handler-Meaning}
use sentrymesh.ToolApi.Resolving.{Settled, resolve_approval-Settled}

abbrev plain : Casing
plain = record { to_lower = λ s. s; equal_fold = str_eq; has_suffix = λ s suffix. str_eq s suffix }

abbrev codec : Codec
codec = record { marshal = λ a. some "{}"; unmarshal = λ s. some [] }

abbrev boss : Identity
boss = record { user_id = "u"; role = admin; team = "t"; scopes = []; key_id = 1; key_name = "k" }

abbrev luck : Luck
luck = record { first = true; second = true; audit = true; now = 5 }

abbrev mail : ToolEvaluationRequest
mail = record { name = "send_email"; arguments = ("to", text "x@example.com") ∷ [] }

abbrev fresh : World
fresh = record { store = new_store; events = [] }

mail_status :
    (tool_evaluation_handler plain codec luck (some boss) (decoded mail) fresh).0.status ≡ 202
unfolding tool_evaluation_handler evaluate evaluate_send_email create insert_row lookup
mail_status = refl

tool_evaluation_handler-Meaning_example :
    Meaning plain codec luck mail boss fresh
      (tool_evaluation_handler plain codec luck (some boss) (decoded mail) fresh)
tool_evaluation_handler-Meaning_example =
    tool_evaluation_handler-Meaning plain codec luck mail boss fresh new_store-Inv

abbrev waiting : World
waiting = record {
  store = (create codec true 5 "send_email" [] 60 Tools.external_needs_approval new_store).1;
  events = [];
}

resolve_approval-Settled_example :
    Settled luck boss 1 approve waiting
      (resolve_approval luck (some boss) (some 1) (status_of approve) waiting)
resolve_approval-Settled_example = resolve_approval-Settled luck boss 1 approve waiting (
    create-Inv codec true 5 "send_email" [] 60 Tools.external_needs_approval new_store
      new_store-Inv)

approved_status : (approve_handler luck (some boss) (some 1) waiting).0.status ≡ 200
unfolding approve_handler resolve_approval set_status create insert_row new_store affected
    update_rows
approved_status = refl
