-- ===== src/Tools/Tests.antt =====
-- Runs of the tool policy, and its theorems at concrete calls. ASCII casing stands for Go's.
use sentrymesh.Base.{String, ◌≤◌, ◌≡◌, ◌≢◌, ◌⊎◌, refl, [], ◌∷◌, str_eq, eq_iff, lookup, arith}
use sentrymesh.Identity.{Identity, analyst, sales, admin}
use sentrymesh.Json.{text, array, Items, nil, cons, Arguments, string_slice}
use sentrymesh.Tools.{
  Casing, ToolCall, require_approval, deny, contact, evaluate, evaluate_read_customer,
  evaluate_send_email, analyst_contact_field,
}
use sentrymesh.Tools.Roles.{leniency, with_role, evaluate_role_mono, evaluate-unlisted_role}

-- Every text of the tests below is lower case, and the only address ends as tested.
abbrev plain : Casing
plain = record {
  to_lower = λ s. s;
  equal_fold = str_eq;
  has_suffix = λ s t. str_eq s "ops@sentrymesh.local";
}

abbrev caller : String → Identity
caller role = record {
  user_id = "u_1";
  role = role;
  team = "risk";
  scopes = [];
  key_id = 7;
  key_name = "k";
}

abbrev call_of : String → String → Arguments → ToolCall
call_of name role arguments = record { name = name; arguments = arguments; identity = caller role }

abbrev fields_of : Items → Arguments
fields_of items = ("fields", array items) ∷ []

abbrev mail : String → ToolCall
mail role = call_of "send_email" role (("to", text "alice@example.com") ∷ [])

abbrev name_update : String → ToolCall
name_update role = call_of "update_customer" role (fields_of (cons (text "name") nil))

abbrev name_read : String → ToolCall
name_read role = call_of "read_customer" role (fields_of (cons (text "name") nil))

contact_denied :
    evaluate plain (call_of "read_customer" analyst (fields_of (cons (text "email") nil)))
    ≡ record { tool = "read_customer"; decision = deny; reason = analyst_contact_field; risk = 80 }
unfolding evaluate evaluate_read_customer string_slice contact lookup
contact_denied = refl

mail_held : (evaluate plain (mail sales)).decision ≡ require_approval
unfolding evaluate evaluate_send_email lookup
mail_held = refl

evaluate_role_mono_example :
    (leniency (evaluate plain (with_role (mail sales) analyst)).decision
      ≤ leniency (evaluate plain (with_role (mail sales) sales)).decision)
    × (leniency (evaluate plain (with_role (mail sales) sales)).decision
        ≤ leniency (evaluate plain (with_role (mail sales) admin)).decision)
evaluate_role_mono_example = evaluate_role_mono plain (mail sales)

mail_not_denied : (evaluate plain (mail sales)).decision ≢ deny
mail_not_denied h = ground (arith, mail_held)

evaluate-unlisted_role_example :
    (((name_update "intern").name ≢ "delete_customer")
      × (evaluate plain (with_role (name_update "intern") "intern")
          ≡ evaluate plain (with_role (name_update "intern") admin)))
    ⊎ (((name_update "intern").name ≡ "delete_customer")
        × ((evaluate plain (with_role (name_update "intern") "intern")).decision ≡ deny))
evaluate-unlisted_role_example =
    evaluate-unlisted_role plain (name_update "intern") "intern"
      (λ e. ground (arith, eq_iff "intern" "analyst"))
      (λ e. ground (arith, eq_iff "intern" "sales")) (λ e. ground (arith, eq_iff "intern" "admin"))
