-- ===== src/Chat/Review.antt =====
-- What ChatHandler (gateway/internal/api/chat.go) records, and what it makes of a request that the
-- risk engine holds for review.
use sentrymesh.Base.{
  ◌≡◌, ◌≢◌, refl, arith, Bool, not, [], ◌∷◌, length, is_empty, Option, none, some, Result, ok, err,
  if_elim, if◌then◌else◌, ◌==◌, ◌&&◌, ◌||◌, is_empty-nil, subst, sym, ap, ◌∙◌,
}
use mathlib.Core.Bool.{true≢false}
use sentrymesh.Scanner.{scan_secrets, scan_output}
use sentrymesh.Risk.{review}
use sentrymesh.Risk
use sentrymesh.Provider
use sentrymesh.Chat.{
  ChatRequest, Env, InputScan, Outcome, redaction, with_default, answer_blocked, provider_request,
  blocks, redacts, after_provider, pipeline, chat_handler,
}
use sentrymesh.Chat.Input.{input_of, decision_of}
use sentrymesh.Chat.Output.{reply_to}

module _ (env : Env) where
  -- Whether the log must have an event: the request was answered 200, or refused before a call.
  abbrev pub is_recorded : Outcome → Bool
  is_recorded o = o.status == 200 || (o.status == 403 && is_empty o.calls)

  after_provider-events :
      (req : ChatRequest) (input : InputScan) (decision : Risk.Decision)
      (reply : Result Provider.Error Provider.Response)
      → let o = after_provider env req input decision reply in
        length o.events ≡ (if is_recorded o then 1 else 0)
  unfolding after_provider
  after_provider-events req input decision (err e) = ground arith
  after_provider-events req input decision (ok r) = ground arith

  -- One audit event is written when the request is answered 200 or refused before a call, and none
  -- otherwise: not for a body that is refused, a provider that fails, or an output that is blocked.
  pub chat_handler-events :
      (body : Option ChatRequest)
      → let o = chat_handler env body in length o.events ≡ (if is_recorded o then 1 else 0)
  unfolding chat_handler pipeline answer_blocked
  chat_handler-events none = refl
  chat_handler-events (some req) =
      let P = λ (o : Outcome). length o.events ≡ (if is_recorded o then 1 else 0) in
      let req' = with_default req in
      if_elim P (is_empty req.messages) (λ h. refl)
        (λ h.
          if_elim P (blocks env (decision_of env req').action) (λ b. refl)
            (λ b.
              after_provider-events req' (input_of env req') (decision_of env req')
                (reply_to env req')))

  -- Answered 200 after the provider's call, and counted nowhere.
  abbrev pub IsPassed : ChatRequest → Outcome → Type 0
  IsPassed req o =
      (o.status ≡ 200)
      × (o.calls ≡ (req.provider, provider_request env req) ∷ [])
      × (o.counters ≡ [])

  reviewed :
      (req : ChatRequest) (input : InputScan) (decision : Risk.Decision) (reply : Provider.Response)
      → decision.action ≡ review
      → scan_secrets env.engine reply.content ≡ []
      → IsPassed req (after_provider env req input decision (ok reply))
  unfolding after_provider scan_output
  reviewed req input decision reply held clean =
      if_elim (IsPassed req) (not (scan_output env.engine reply.content).safe)
        (λ e. absurd (true≢false (sym e ∙ ap (λ fs. not (is_empty fs)) clean)))
        (λ e. (refl, refl, ap (λ a. if redacts env a then redaction ∷ [] else []) held))

  -- A request that the risk engine holds for review goes to the provider like an allowed one: when
  -- the provider replies without a secret, it is answered 200 after that one call, and no counter is
  -- raised.
  pub chat_handler-review :
      (req : ChatRequest) (reply : Provider.Response)
      → req.messages ≢ []
      → (decision_of env (with_default req)).action ≡ review
      → reply_to env (with_default req) ≡ ok reply
      → scan_secrets env.engine reply.content ≡ []
      → IsPassed (with_default req) (chat_handler env (some req))
  unfolding chat_handler pipeline
  chat_handler-review req reply some_message held replied clean =
      let req' = with_default req in
      if_elim (IsPassed req') (is_empty req.messages)
        (λ h. absurd (some_message (is_empty-nil req.messages h)))
        (λ h.
          if_elim (IsPassed req') (blocks env (decision_of env req').action)
            (λ b. absurd (true≢false (sym b ∙ ap (blocks env) held)))
            (λ b.
              subst
                (λ r.
                  IsPassed req'
                    (after_provider env req' (input_of env req') (decision_of env req') r))
                (sym replied)
                (reviewed req' (input_of env req') (decision_of env req') reply held clean)))
