-- ===== src/Tools.antt =====
-- gateway/internal/tools/policy.go: which tool calls are allowed, denied, or held for an approval.
-- The texts that the policy gives as reasons are the constructors of `Reason`. Go's Unicode case
-- folding is the parameter `Casing`, of which nothing is assumed but what a theorem names.
pub mod Policy
pub mod Roles
mod Tests
use sentrymesh.Base.{
  ℕ, String, List, [], ◌∷◌, Bool, true, false, ◌&&◌, ◌||◌, Option, none, some, any, not, str_eq,
  lookup, if◌then◌else◌, if_elim, ◌≡◌,
}
use sentrymesh.Identity.{Identity, analyst, sales, admin, has_role}
use sentrymesh.Json.{Arguments, as_string, string_slice}

-- `strings.ToLower`, `strings.EqualFold` and `strings.HasSuffix`
pub record Casing : Type 0 where
  pub to_lower : String → String
  pub equal_fold : String → String → Bool
  pub has_suffix : String → String → Bool

pub data Decision : Type 0 where
  allow require_approval deny : Decision

pub record ToolCall : Type 0 where
  pub name : String
  pub arguments : Arguments
  pub identity : Identity

pub data Reason : Type 0 where
  read_only_search : Reason  -- "read-only search operation"
  admins_only_deletion : Reason  -- "only admins may request customer deletion"
  destructive_needs_approval : Reason  -- "admin destructive action requires approval"
  unknown_tool : Reason  -- "unknown tools are denied by default"
  analyst_contact_field : Reason  -- "analysts cannot access customer contact fields"
  sensitive_field : String → Reason  -- "sensitive field %q cannot be accessed"
  fields_permitted : Reason  -- "requested customer fields are permitted"
  analyst_email : Reason  -- "analysts cannot send external email"
  recipient_required : Reason  -- "email recipient is required"
  internal_recipient : Reason  -- "internal email recipient"
  external_needs_approval : Reason  -- "external email requires human approval"
  protected_field : String → Reason  -- "protected field %q cannot be modified"
  analyst_mutation : Reason  -- "analysts cannot modify customer records"
  sales_needs_approval : Reason  -- "sales customer mutation requires approval"
  admin_mutation : Reason  -- "admin customer mutation permitted"

pub record Evaluation : Type 0 where
  pub tool : String
  pub decision : Decision
  pub reason : Reason
  pub risk : ℕ

abbrev pub verdict : ToolCall → Decision → Reason → ℕ → Evaluation
verdict call decision reason risk = record {
  tool = call.name;
  decision = decision;
  reason = reason;
  risk = risk;
}

-- The keys of the map `sensitive` of `evaluateReadCustomer`.
unfoldable pub sensitive : String → Bool
sensitive f =
    str_eq f "ssn"
    || str_eq f "password"
    || str_eq f "api_key"
    || str_eq f "credit_card"
    || str_eq f "health_data"
    || str_eq f "bank_account"

-- The keys of the map `protected` of `evaluateUpdateCustomer`.
unfoldable pub protected : String → Bool
protected f =
    str_eq f "role" || str_eq f "permissions" || str_eq f "account_owner" || str_eq f "billing_plan"

module _ (c : Casing) where
  -- The test of the first loop of `evaluateReadCustomer`.
  unfoldable pub contact : String → Bool
  contact f = c.equal_fold f "email" || c.equal_fold f "phone"

  -- The loops over the fields: the first one whose lower case is in the map.
  unfoldable pub first_marked : (String → Bool) → List String → Option String
  first_marked marked [] = none
  first_marked marked (f ∷ rest) =
      if marked (c.to_lower f) then some f else first_marked marked rest

  -- The second loop of `evaluateReadCustomer` and what follows it.
  unfoldable pub guard_sensitive : ToolCall → List String → Evaluation
  guard_sensitive call fields = elim (first_marked sensitive fields) [
    | some f ↦ verdict call deny (sensitive_field f) 90
    | none ↦ verdict call allow fields_permitted 10
  ]

  unfoldable pub evaluate_read_customer : ToolCall → Evaluation
  unfolding guard_sensitive
  evaluate_read_customer call =
      let fields = string_slice (lookup "fields" call.arguments) in
      if has_role call.identity analyst && any contact fields
      then verdict call deny analyst_contact_field 80
      else guard_sensitive call fields

  unfoldable pub evaluate_send_email : ToolCall → Evaluation
  evaluate_send_email call =
      let to = as_string (lookup "to" call.arguments) in
      if has_role call.identity analyst
      then verdict call deny analyst_email 80
      else if str_eq to ""
      then verdict call deny recipient_required 80
      else if c.has_suffix (c.to_lower to) "@sentrymesh.local"
      then verdict call allow internal_recipient 20
      else verdict call require_approval external_needs_approval 60

  unfoldable pub evaluate_update_customer : ToolCall → Evaluation
  evaluate_update_customer call =
      elim (first_marked protected (string_slice (lookup "fields" call.arguments))) [
        | some f ↦ verdict call deny (protected_field f) 90
        | none ↦
            if has_role call.identity analyst
            then verdict call deny analyst_mutation 85
            else if has_role call.identity sales
            then verdict call require_approval sales_needs_approval 70
            else verdict call allow admin_mutation 30
      ]

  -- `case "delete_customer"`
  unfoldable pub evaluate_delete_customer : ToolCall → Evaluation
  evaluate_delete_customer call =
      if not (has_role call.identity admin)
      then verdict call deny admins_only_deletion 95
      else verdict call require_approval destructive_needs_approval 95

  unfoldable pub evaluate : ToolCall → Evaluation
  evaluate call =
      if str_eq call.name "read_customer"
      then evaluate_read_customer call
      else if str_eq call.name "search_documents"
      then verdict call allow read_only_search 10
      else if str_eq call.name "send_email"
      then evaluate_send_email call
      else if str_eq call.name "update_customer"
      then evaluate_update_customer call
      else if str_eq call.name "delete_customer"
      then evaluate_delete_customer call
      else verdict call deny unknown_tool 90

  -- A property of the verdict from one of each case of the switch, under its test on the name.
  pub evaluate_cases {ℓ} :
      (P : Evaluation → Type ℓ) (call : ToolCall)
      → (str_eq call.name "read_customer" ≡ true → P (evaluate_read_customer call))
      → (str_eq call.name "search_documents" ≡ true → P (verdict call allow read_only_search 10))
      → (str_eq call.name "send_email" ≡ true → P (evaluate_send_email call))
      → (str_eq call.name "update_customer" ≡ true → P (evaluate_update_customer call))
      → (str_eq call.name "delete_customer" ≡ true → P (evaluate_delete_customer call))
      → P (verdict call deny unknown_tool 90)
      → P (evaluate call)
  unfolding evaluate
  evaluate_cases P call read search email update delete unknown = if_elim P _ read λ _.
      if_elim P _ (λ e. search e)
        λ _. if_elim P _ email λ _. if_elim P _ update λ _. if_elim P _ delete λ _. unknown
