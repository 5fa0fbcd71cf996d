-- ===== src/Chat/Input.antt =====
-- What ChatHandler (gateway/internal/api/chat.go) lets reach a provider.
use sentrymesh.Base.{
  is_empty-nil, length-pos, ℕ, max, ◌≤◌, ◌<◌, ◌≡◌, ◌≢◌, ◌⊎◌, inl, refl, subst, sym, ap, arith,
  String, false, List, [], ◌∷◌, All, map, length, is_empty, none, some, Result, ok, err, if_elim,
}
use sentrymesh.Scanner.{scan_secrets, scan_and_redact_pii}
use sentrymesh.Scanner.Injection.{InjectionFinding, scan_prompt_injection}
use sentrymesh.Scanner.Findings.{IsWeighty, scan_prompt_injection-IsWeighty}
use sentrymesh.Risk.{Action, block, review}
use sentrymesh.Risk.Monotone.{evaluate-block}
use sentrymesh.Risk
use sentrymesh.Provider.{Message}
use sentrymesh.Provider
use sentrymesh.Chat.{
  ChatRequest, Env, InputScan, Outcome, with_default, prompt_text, max_confidence, scan_input,
  decide, answer_blocked, redact_message, provider_request, blocks, event_of, after_provider,
  pipeline, chat_handler,
}

module _ (env : Env) where
  -- The scan of a request's prompt, and what the risk engine makes of it.
  abbrev pub input_of : ChatRequest → InputScan
  input_of req = scan_input env (env.trim (prompt_text req.messages))

  abbrev pub decision_of : ChatRequest → Risk.Decision
  decision_of req = decide env (input_of req)

  abbrev pub shown : Message → String × String
  shown m = (m.role, m.content)

  abbrev pub shown_redacted : Message → String × String
  shown_redacted m = (m.role, (scan_and_redact_pii env.engine m.content).0)

  -- A call for a request: its provider and model, and its messages in their order, with their roles,
  -- each text with the personal data redacted.
  abbrev pub Asks : ChatRequest → String × Provider.Request → Type 0
  Asks req call =
      (call.0 ≡ req.provider)
      × (call.1.model ≡ req.model)
      × (map shown call.1.messages ≡ map shown_redacted req.messages)

  abbrev pub IsCleared : ChatRequest → String × Provider.Request → Type 0
  IsCleared req call = Asks req call × (blocks env (decision_of req).action ≡ false)

  redacted_one_by_one :
      (messages : List Message)
      → map shown (map (redact_message env) messages) ≡ map shown_redacted messages
  redacted_one_by_one [] = refl
  redacted_one_by_one (m ∷ messages) = ap (λ r. shown_redacted m ∷ r) (redacted_one_by_one messages)

  provider_request-Asks : (req : ChatRequest) → Asks req (req.provider, provider_request env req)
  unfolding provider_request
  provider_request-Asks req = (refl, refl, redacted_one_by_one req.messages)

  after_provider-calls :
      (req : ChatRequest) (input : InputScan) (decision : Risk.Decision)
      (reply : Result Provider.Error Provider.Response)
      → (after_provider env req input decision reply).calls
        ≡ (req.provider, provider_request env req) ∷ []
  unfolding after_provider
  after_provider-calls req input decision (err e) = refl
  after_provider-calls req input decision (ok r) = ground arith

  pipeline-IsCleared :
      (req : ChatRequest)
      → All (IsCleared req) (pipeline env req).calls × (length (pipeline env req).calls ≤ 1)
  unfolding pipeline answer_blocked
  pipeline-IsCleared req =
      let P = λ (o : Outcome). All (IsCleared req) o.calls × (length o.calls ≤ 1) in
      if_elim P (blocks env (decision_of req).action) (λ h. (tt, omega arith))
        (λ h.
          rw
            (after_provider-calls req (input_of req) (decision_of req)
              (Provider.chat env.router env.called req.provider (provider_request env req)))
            (((provider_request-Asks req, h), tt), omega arith))

  -- A provider is called at most once for a request, only when the risk engine does not block the
  -- prompt. The request's provider is given the request's model and messages, in their order and with their roles, each
  -- text as ScanAndRedactPII redacts it.
  pub chat_handler-IsCleared :
      (req : ChatRequest)
      → let o = chat_handler env (some req) in
        All (IsCleared (with_default req)) o.calls × (length o.calls ≤ 1)
  unfolding chat_handler
  chat_handler-IsCleared req =
      if_elim (λ (o : Outcome). All (IsCleared (with_default req)) o.calls × (length o.calls ≤ 1))
        (is_empty req.messages) (λ h. (tt, omega arith))
        (λ h. pipeline-IsCleared (with_default req))

  max_confidence-ge : (best : ℕ) (fs : List InjectionFinding) → best ≤ max_confidence best fs
  unfolding max_confidence
  max_confidence-ge best [] = omega arith
  max_confidence-ge best (f ∷ fs) = omega (arith, max_confidence-ge (max best f.confidence) fs)

  max_confidence-IsWeighty :
      (fs : List InjectionFinding) → fs ≢ [] → All IsWeighty fs → 75 ≤ max_confidence 0 fs
  unfolding max_confidence
  max_confidence-IsWeighty [] h w = absurd (h refl)
  max_confidence-IsWeighty (f ∷ fs) h w =
      omega (arith, max_confidence-ge (max 0 f.confidence) fs, w.0.0)

  messages_kept : (req : ChatRequest) → (with_default req).messages ≡ req.messages
  messages_kept req = ground arith

  evaluate-injection :
      (a : Risk.Input)
      → 0 < a.injection_count
      → 75 ≤ a.max_injection
      → ((Risk.evaluate a).action ≡ block) ⊎ ((Risk.evaluate a).action ≡ review)
  unfolding Risk.evaluate Risk.total Risk.grade
  evaluate-injection a some_finding heavy = ground arith

  -- A request is refused at its prompt: 403, no call, and one audit event with the decision.
  abbrev pub IsRefused : ChatRequest → Outcome → Type 0
  IsRefused req o =
      (o.status ≡ 403)
      × (o.calls ≡ [])
      × (o.events ≡ event_of env req (decision_of req) (input_of req) none ∷ [])
      × ((decision_of req).action ≡ block)

  block-IsRefused :
      (req : ChatRequest) → (decision_of req).action ≡ block → IsRefused req (pipeline env req)
  unfolding pipeline answer_blocked
  block-IsRefused req b =
      if_elim (IsRefused req) (blocks env (decision_of req).action) (λ h. (refl, refl, refl, b))
        (λ h. cc (ap (blocks env) b))

  secret-block :
      (req : ChatRequest)
      → scan_secrets env.engine (env.trim (prompt_text req.messages)) ≢ []
      → (decision_of req).action ≡ block
  unfolding decide scan_input
  secret-block req h = (evaluate-block _ (inl (length-pos _ h))).0

  -- A request with a secret in its prompt is refused.
  pub secret_prompt-IsRefused :
      (req : ChatRequest)
      → req.messages ≢ []
      → scan_secrets env.engine (env.trim (prompt_text req.messages)) ≢ []
      → IsRefused (with_default req) (chat_handler env (some req))
  unfolding chat_handler
  secret_prompt-IsRefused req some_message h =
      if_elim (IsRefused (with_default req)) (is_empty req.messages)
        (λ none. absurd (some_message (is_empty-nil req.messages none)))
        (λ e. block-IsRefused (with_default req) (
          secret-block (with_default req) (
            subst (λ ms. scan_secrets env.engine (env.trim (prompt_text ms)) ≢ [])
              (sym (messages_kept req)) h)))

  -- An injection finding in the prompt has the request refused or held for review by the risk
  -- engine: it is never graded as one to allow, redacted or not.
  pub injection_weighs :
      (req : ChatRequest)
      → scan_prompt_injection env.engine (env.trim (prompt_text req.messages)) ≢ []
      → ((decision_of req).action ≡ block) ⊎ ((decision_of req).action ≡ review)
  unfolding decide scan_input
  injection_weighs req h =
      let heavy =
        max_confidence-IsWeighty
          (scan_prompt_injection env.engine (env.trim (prompt_text req.messages))) h
          (scan_prompt_injection-IsWeighty env.engine _) in
      evaluate-injection _ (length-pos _ h) heavy
