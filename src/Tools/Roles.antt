-- ===== src/Tools/Roles.antt =====
-- The verdicts of the tool policy by the caller's role (gateway/internal/tools/policy.go).
use sentrymesh.Base.{
  ℕ, ◌≤◌, String, ◌≡◌, ◌≢◌, ◌⊎◌, arith, true, false, lookup, eq_iff, Bool, some, none, ap, ◌∙◌,
  if◌then◌else◌, refl, str_eq, Bool-cases, inl, inr,
}
use sentrymesh.Identity.{analyst, sales, admin, has_role}
use sentrymesh.Json.{string_slice, as_string}
use sentrymesh.Tools.{
  Casing, Decision, Evaluation, verdict, first_marked, protected_field, analyst_mutation,
  sales_needs_approval, admin_mutation, allow, require_approval, deny, ToolCall, protected,
  guard_sensitive, evaluate_read_customer, evaluate_send_email, evaluate_update_customer,
  evaluate_delete_customer, evaluate,
}
use sentrymesh.Tools.Policy.{ne_of_eq}

abbrev pub leniency : Decision → ℕ
leniency deny = 0
leniency require_approval = 1
leniency allow = 2

-- The same call by a caller of another role.
abbrev pub with_role : ToolCall → String → ToolCall
with_role call role = record call { identity = record (call.identity) { role = role } }

str_ne : {s t : String} → s ≢ t → str_eq s t ≡ false
str_ne {s} {t} h = elim (Bool-cases (str_eq s t)) [
  | inl e ↦ absurd (h ((eq_iff s t).0 e))
  | inr e ↦ e
]

module _ (c : Casing) where
  -- A step from a role to a stronger one, for one of the policy's functions.
  read_mono :
      (call : ToolCall)
      → (leniency (evaluate_read_customer c (with_role call analyst)).decision
          ≤ leniency (evaluate_read_customer c (with_role call sales)).decision)
        × (leniency (evaluate_read_customer c (with_role call sales)).decision
            ≤ leniency (evaluate_read_customer c (with_role call admin)).decision)
  unfolding evaluate_read_customer guard_sensitive
  read_mono call = ground arith

  email_mono :
      (call : ToolCall)
      → (leniency (evaluate_send_email c (with_role call analyst)).decision
          ≤ leniency (evaluate_send_email c (with_role call sales)).decision)
        × (leniency (evaluate_send_email c (with_role call sales)).decision
            ≤ leniency (evaluate_send_email c (with_role call admin)).decision)
  unfolding evaluate_send_email
  email_mono call = ground arith

  update_mono :
      (call : ToolCall)
      → (leniency (evaluate_update_customer c (with_role call analyst)).decision
          ≤ leniency (evaluate_update_customer c (with_role call sales)).decision)
        × (leniency (evaluate_update_customer c (with_role call sales)).decision
            ≤ leniency (evaluate_update_customer c (with_role call admin)).decision)
  unfolding evaluate_update_customer
  update_mono call = ground arith

  delete_mono :
      (call : ToolCall)
      → (leniency (evaluate_delete_customer c (with_role call analyst)).decision
          ≤ leniency (evaluate_delete_customer c (with_role call sales)).decision)
        × (leniency (evaluate_delete_customer c (with_role call sales)).decision
            ≤ leniency (evaluate_delete_customer c (with_role call admin)).decision)
  unfolding evaluate_delete_customer
  delete_mono call = ground arith

  -- For every call, `sales` is treated no more strictly than `analyst`, and `admin` no more
  -- strictly than `sales` (deny, hold for an approval, allow, in this order).
  pub evaluate_role_mono :
      (call : ToolCall)
      → (leniency (evaluate c (with_role call analyst)).decision
          ≤ leniency (evaluate c (with_role call sales)).decision)
        × (leniency (evaluate c (with_role call sales)).decision
            ≤ leniency (evaluate c (with_role call admin)).decision)
  unfolding evaluate
  evaluate_role_mono call =
      ground (arith, read_mono call, email_mono call, update_mono call, delete_mono call)

  -- What a call has to be for an approval to be asked for.
  abbrev pub NeedsApproval : ToolCall → Type 0
  NeedsApproval call =
      ((call.name ≡ "send_email")
        × (has_role call.identity analyst ≡ false)
        × (as_string (lookup "to" call.arguments) ≢ ""))
      ⊎ ((call.name ≡ "update_customer") × (has_role call.identity sales ≡ true))
      ⊎ ((call.name ≡ "delete_customer") × (has_role call.identity admin ≡ true))

  -- An approval is asked for only for an e-mail with a recipient by a caller who is no analyst,
  -- for an update by sales, and for a deletion by an admin.
  pub evaluate-require_approval :
      (call : ToolCall) → (evaluate c call).decision ≡ require_approval → NeedsApproval call
  unfolding evaluate evaluate_read_customer guard_sensitive evaluate_send_email
      evaluate_update_customer evaluate_delete_customer
  evaluate-require_approval call h = ground (
    arith,
    eq_iff call.name "send_email",
    eq_iff call.name "update_customer",
    eq_iff call.name "delete_customer",
    eq_iff (as_string (lookup "to" call.arguments)) "",
  )

  -- Only the five tools of the switch are ever let through, and an analyst is let through to
  -- reading and searching alone.
  pub evaluate-known :
      (call : ToolCall)
      → (evaluate c call).decision ≢ deny
      → ((call.name ≡ "read_customer") ⊎ (call.name ≡ "search_documents"))
        ⊎ ((has_role call.identity analyst ≡ false)
            × ((call.name ≡ "send_email")
                ⊎ (call.name ≡ "update_customer")
                ⊎ (call.name ≡ "delete_customer")))
  unfolding evaluate evaluate_send_email evaluate_update_customer evaluate_delete_customer
  evaluate-known call h = ground (
    arith,
    eq_iff call.name "read_customer",
    eq_iff call.name "search_documents",
    eq_iff call.name "send_email",
    eq_iff call.name "update_customer",
    eq_iff call.name "delete_customer",
    eq_iff call.identity.role "analyst",
    ne_of_eq call.identity.role "analyst" "admin",
  )

  update_as_admin :
      (call : ToolCall) (role : String)
      → str_eq role "analyst" ≡ false
      → str_eq role "sales" ≡ false
      → evaluate_update_customer c (with_role call role)
        ≡ evaluate_update_customer c (with_role call admin)
  unfolding evaluate_update_customer
  update_as_admin call role not_analyst not_sales =
      let by_role : Bool → Bool → Evaluation = λ is_analyst is_sales.
        elim (first_marked c protected (string_slice (lookup "fields" call.arguments))) [
          | some f ↦ verdict call deny (protected_field f) 90
          | none ↦
              if is_analyst
              then verdict call deny analyst_mutation 85
              else if is_sales
              then verdict call require_approval sales_needs_approval 70
              else verdict call allow admin_mutation 30
        ] in
      ap (λ b. by_role b (str_eq role "sales")) not_analyst ∙ ap (λ b. by_role false b) not_sales

  -- A call of any tool but delete_customer is evaluated for a role that the policy does not name as it
  -- is for an admin, with the same decision, reason and risk; delete_customer is denied.
  pub evaluate-unlisted_role :
      (call : ToolCall) (role : String)
      → role ≢ analyst
      → role ≢ sales
      → role ≢ admin
      → ((call.name ≢ "delete_customer")
          × (evaluate c (with_role call role) ≡ evaluate c (with_role call admin)))
        ⊎ ((call.name ≡ "delete_customer") × ((evaluate c (with_role call role)).decision ≡ deny))
  unfolding evaluate evaluate_read_customer evaluate_send_email evaluate_delete_customer
  evaluate-unlisted_role call role not_analyst not_sales not_admin =
      let r1 : str_eq role "analyst" ≡ false = str_ne not_analyst in
      let r2 : str_eq role "sales" ≡ false = str_ne not_sales in
      let r3 : str_eq role "admin" ≡ false = str_ne not_admin in
      elim (Bool-cases (str_eq call.name "delete_customer")) [
        | inl deletes ↦
            let e : call.name ≡ "delete_customer" =
              (eq_iff call.name "delete_customer").0 deletes in
            inr (e, rw (e, r3) refl)
        | inr other ↦
            inl (λ e. cc (rw e at other), rw (update_as_admin call role r1 r2, r1, other) refl)
      ]
