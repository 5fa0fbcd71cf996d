-- ===== src/Tools/Policy.antt =====
-- What the verdicts of the tool policy say about a call (gateway/internal/tools/policy.go).
use sentrymesh.Base.{
  ℕ, ◌≤◌, String, ◌≡◌, refl, str_eq, subst, sym, ◌↔◌, ◌≢◌, inl, inr, arith, List, [], ◌∷◌, Bool,
  false, ◌&&◌, none, any, lookup, eq_iff, All, Bool-cases,
}
use sentrymesh.Identity.{analyst, has_role}
use sentrymesh.Json.{string_slice}
use sentrymesh.Tools.{
  Casing, Decision, allow, require_approval, deny, ToolCall, sensitive, contact, first_marked,
  guard_sensitive, evaluate_read_customer, evaluate_send_email, evaluate_update_customer,
  evaluate_delete_customer, evaluate, evaluate_cases,
}

-- A text that equals one literal is not another.
pub ne_of_eq : (n s t : String) → n ≡ s → str_eq s t ≡ false → str_eq n t ≡ false
ne_of_eq n s t h d = subst (λ m. str_eq m t ≡ false) (sym h) d

-- The bands of risk that go with a decision.
abbrev pub InBand : Decision → ℕ → Type 0
InBand allow risk = (10 ≤ risk) × (risk ≤ 30)
InBand require_approval risk = (60 ≤ risk) × (risk ≤ 95)
InBand deny risk = (80 ≤ risk) × (risk ≤ 95)

module _ (c : Casing) where
  -- No field's lower case is marked.
  abbrev pub Clean : (String → Bool) → List String → Type 0
  Clean marked fields = All (λ f. marked (c.to_lower f) ≡ false) fields

  first_marked-none :
      (marked : String → Bool) (fields : List String)
      → first_marked c marked fields ≡ none
      → Clean marked fields
  unfolding first_marked
  first_marked-none marked [] h = tt
  first_marked-none marked (f ∷ rest) h = elim (Bool-cases (marked (c.to_lower f))) [
    | inl e ↦ cc (h, e)
    | inr e ↦ (e, first_marked-none marked rest (rw (e, first_marked) at h))
  ]

  first_marked-Clean :
      (marked : String → Bool) (fields : List String)
      → Clean marked fields
      → first_marked c marked fields ≡ none
  unfolding first_marked
  first_marked-Clean marked [] h = refl
  first_marked-Clean marked (f ∷ rest) h = rw h.0 (first_marked-Clean marked rest h.1)

  read-InBand :
      (call : ToolCall)
      → let e = evaluate_read_customer c call in (e.tool ≡ call.name) × InBand e.decision e.risk
  unfolding evaluate_read_customer
  read-InBand call = ground arith

  email-InBand :
      (call : ToolCall)
      → let e = evaluate_send_email c call in (e.tool ≡ call.name) × InBand e.decision e.risk
  unfolding evaluate_send_email
  email-InBand call = ground arith

  update-InBand :
      (call : ToolCall)
      → let e = evaluate_update_customer c call in (e.tool ≡ call.name) × InBand e.decision e.risk
  unfolding evaluate_update_customer
  update-InBand call = ground arith

  delete-InBand :
      (call : ToolCall)
      → let e = evaluate_delete_customer c call in (e.tool ≡ call.name) × InBand e.decision e.risk
  unfolding evaluate_delete_customer
  delete-InBand call = ground arith

  -- Every verdict names the tool of the call, and its risk lies in the band of its decision: 10 to
  -- 30 when allowed, 60 to 95 when held for an approval, 80 to 95 when denied.
  pub evaluate-InBand :
      (call : ToolCall)
      → ((evaluate c call).tool ≡ call.name)
        × InBand (evaluate c call).decision (evaluate c call).risk
  evaluate-InBand call =
      evaluate_cases c (λ e. (e.tool ≡ call.name) × InBand e.decision e.risk) call
        (λ _. read-InBand call) (λ _. ground arith) (λ _. email-InBand call)
        (λ _. update-InBand call) (λ _. delete-InBand call) (ground arith)

  guard-allow :
      (call : ToolCall) (fields : List String)
      → ((guard_sensitive c call fields).decision ≡ allow) ↔ Clean sensitive fields
  unfolding guard_sensitive
  guard-allow call fields = (
    λ h. first_marked-none sensitive fields (ground arith),
    λ h. rw (first_marked-Clean sensitive fields h, guard_sensitive) refl,
  )

  evaluate-read_lem :
      (call : ToolCall)
      → call.name ≡ "read_customer"
      → evaluate c call ≡ evaluate_read_customer c call
  unfolding evaluate
  evaluate-read_lem call h = ground (arith, eq_iff call.name "read_customer")

  -- `read_customer` is allowed exactly when no field is sensitive and, for an analyst, none is a
  -- contact field; it is never held for an approval.
  pub evaluate-read_customer :
      (call : ToolCall)
      → call.name ≡ "read_customer"
      → let fields = string_slice (lookup "fields" call.arguments) in
        (((evaluate c call).decision ≡ allow) ↔ (
          Clean sensitive fields
          × ((has_role call.identity analyst && any (contact c) fields) ≡ false)))
        × ((evaluate c call).decision ≢ require_approval)
  unfolding evaluate_read_customer guard_sensitive
  evaluate-read_customer call h =
      rw (evaluate-read_lem call h)
        (ground (arith, guard-allow call (string_slice (lookup "fields" call.arguments))))
