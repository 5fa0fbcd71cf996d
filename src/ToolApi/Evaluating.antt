-- ===== src/ToolApi/Evaluating.antt =====
-- What an evaluation of a tool call (gateway/internal/api/tools.go) leaves behind.
use sentrymesh.Base.{
  ℕ, ◌≡◌, ◌≢◌, refl, arith, ◌⊎◌, inl, inr, String, Bool, true, false, Option, none, some, str_eq,
  if◌then◌else◌, if_elim, err, ◌==◌,
}
use sentrymesh.Identity.{Identity}
use sentrymesh.Tools.{Casing, Evaluation, Decision, require_approval, allow, deny}
use sentrymesh.Tools
use sentrymesh.Approval.{Codec, marshalling, new_request, create, insert_row, find}
use sentrymesh.Approval.Lifecycle.{Inv, find-insert_row}
use sentrymesh.ToolApi.{
  ToolEvaluationRequest, decoded, World, Luck, Response, evaluation, fails, answers,
  write_tool_event, requested, after_create, act_on, call_of, tool_evaluation_handler,
}

module _ (c : Casing) (codec : Codec) where
  -- What an answer means: a 202 has stored a pending request with the evaluated call and the
  -- policy's verdict, under the id that it gives and beside the other requests, and has asked for one
  -- audit event; every other answer has stored nothing.
  pub data Meaning (luck : Luck) (req : ToolEvaluationRequest) (principal : Identity) (w : World)
      : Response × World → Type 0 where
    undecided : (status : ℕ) → status ≢ 202 → Meaning luck req principal w (fails status, w)
    decided :
        (status : ℕ) (verdict : Evaluation)
        → verdict ≡ Tools.evaluate c (call_of c codec req principal)
        → ((status ≡ 403) × (verdict.decision ≡ deny))
          ⊎ ((status ≡ 200) × (verdict.decision ≡ allow))
        → Meaning luck req principal w (answers status (evaluation verdict none), w)
    held :
        (verdict : Evaluation) (doc : String) (after : World)
        → verdict ≡ Tools.evaluate c (call_of c codec req principal)
        → verdict.decision ≡ require_approval
        → codec.marshal req.arguments ≡ some doc
        → ((k : ℕ)
            → find k after.store.rows ≡ (
                if w.store.next_id == k
                then some
                    (new_request w.store.next_id luck.now req.name doc verdict.risk verdict.reason)
                else find k w.store.rows))
        → after.events
          ≡ write_tool_event luck (requested c codec luck req verdict w.store.next_id) w.events
        → Meaning luck req principal w
            (answers 202 (evaluation verdict (some w.store.next_id)), after)

  holds :
      (luck : Luck) (req : ToolEvaluationRequest) (principal : Identity) (w : World)
      (verdict : Evaluation)
      → Inv w.store
      → verdict ≡ Tools.evaluate c (call_of c codec req principal)
      → verdict.decision ≡ require_approval
      → Meaning luck req principal w (
          after_create c codec luck req verdict w.events (
            create codec luck.first luck.now req.name req.arguments verdict.risk verdict.reason
              w.store))
  unfolding create
  holds luck req principal w verdict v same held_back = go (codec.marshal req.arguments) refl
    where
      inserts :
          (up : Bool) (doc : String)
          → codec.marshal req.arguments ≡ some doc
          → Meaning luck req principal w (
              after_create c codec luck req verdict w.events (
                insert_row up
                  (new_request w.store.next_id luck.now req.name doc verdict.risk verdict.reason)
                  w.store))
      inserts false doc e = undecided 500 (λ h. omega (arith, h))
      inserts true doc e =
          held verdict doc _ same held_back e (λ k. find-insert_row k _ w.store refl v) refl

      go :
          (o : Option String)
          → codec.marshal req.arguments ≡ o
          → Meaning luck req principal w (
              after_create c codec luck req verdict w.events (elim o [
                | none ↦ (err marshalling, w.store)
                | some doc ↦
                    insert_row luck.first
                      (new_request w.store.next_id luck.now req.name doc verdict.risk
                        verdict.reason)
                      w.store
              ]))
      go none e = undecided 500 (λ h. omega (arith, h))
      go (some doc) e = inserts luck.first doc e

  acts :
      (luck : Luck) (req : ToolEvaluationRequest) (principal : Identity) (w : World)
      (verdict : Evaluation) (d : Decision)
      → Inv w.store
      → verdict ≡ Tools.evaluate c (call_of c codec req principal)
      → verdict.decision ≡ d
      → Meaning luck req principal w (act_on c codec luck req verdict d w)
  acts luck req principal w verdict require_approval v same e =
      holds luck req principal w verdict v same e
  acts luck req principal w verdict deny v same e = decided 403 verdict same (inl (refl, e))
  acts luck req principal w verdict allow v same e = decided 200 verdict same (inr (refl, e))

  -- An evaluation answers 202 exactly when it has stored a pending request for the evaluated call,
  -- with the policy's risk and reason, beside the other requests, and has asked for its audit event;
  -- 403 and 200 carry a verdict that denies or allows the call, and they, like every error, store
  -- nothing. The table of requests has its invariant.
  pub tool_evaluation_handler-Meaning :
      (luck : Luck) (req : ToolEvaluationRequest) (principal : Identity) (w : World)
      → Inv w.store
      → Meaning luck req principal w
          (tool_evaluation_handler c codec luck (some principal) (decoded req) w)
  unfolding tool_evaluation_handler
  tool_evaluation_handler-Meaning luck req principal w v =
      if_elim (Meaning luck req principal w) (str_eq req.name "")
        (λ e. undecided 400 (λ h. omega (arith, h)))
        (λ e.
          acts luck req principal w (Tools.evaluate c (call_of c codec req principal)) _ v refl
            refl)
