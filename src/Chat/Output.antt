-- ===== src/Chat/Output.antt =====
-- What ChatHandler (gateway/internal/api/chat.go) answers after the provider's call.
use sentrymesh.Base.{
  is_empty-nil, is_empty-ne_nil, All, List, ◌∷◌, Option, none, ◌≡◌, ◌≢◌, ◌⊎◌, inl, inr, refl, arith,
  String, [], is_empty, some, Result, ok, err, if_elim, Bool-cases,
}
use sentrymesh.Scanner.{OutputScan, scan_secrets, scan_and_redact_pii, scan_output}
use sentrymesh.Risk
use sentrymesh.Provider
use sentrymesh.Chat.{
  ChatRequest, Env, InputScan, Outcome, Body, failure, security, with_default, answer_blocked,
  answer_failed, provider_request, blocks, after_provider, pipeline, chat_handler,
}
use sentrymesh.Chat.Input.{decision_of}

module _ (env : Env) where
  abbrev pub reply_to : ChatRequest → Result Provider.Error Provider.Response
  reply_to req = Provider.chat env.router env.called req.provider (provider_request env req)

  -- The texts of a model that a body carries: the response, and what the scan of the output says of
  -- it.
  abbrev pub scanned_texts : Option OutputScan → List String
  scanned_texts none = []
  scanned_texts (some output) = output.redacted ∷ []

  abbrev pub response_texts : Body → List String
  response_texts failure = []
  response_texts (security r) = r.model_response ∷ scanned_texts r.output

  -- No provider replied, and the answer carries no text.
  abbrev pub Withholds : ChatRequest → Outcome → Type 0
  Withholds req o =
      (o.status ≢ 200)
      × ((o.calls ≡ []) ⊎ ((e : Provider.Error) × (reply_to req ≡ err e)))
      × All (λ t. t ≡ "") (response_texts o.body)

  -- A provider replied without a secret, and the client is given the redacted text, twice.
  abbrev pub Delivers : ChatRequest → Outcome → Type 0
  Delivers req o =
      (o.status ≡ 200)
      × (reply : Provider.Response) × (reply_to req ≡ ok reply)
      × (scan_secrets env.engine reply.content ≡ [])
      × (response_texts o.body
          ≡ (scan_and_redact_pii env.engine reply.content).0
            ∷ (scan_and_redact_pii env.engine reply.content).0
            ∷ [])

  -- A provider replied with a secret: the response is empty, but the scan in the body gives the text
  -- in which only personal data is redacted.
  abbrev pub Discloses : ChatRequest → Outcome → Type 0
  Discloses req o =
      (o.status ≡ 403)
      × (reply : Provider.Response) × (reply_to req ≡ ok reply)
      × (scan_secrets env.engine reply.content ≢ [])
      × (response_texts o.body ≡ "" ∷ (scan_and_redact_pii env.engine reply.content).0 ∷ [])

  abbrev pub IsAnswered : ChatRequest → Outcome → Type 0
  IsAnswered req o = Withholds req o ⊎ (Delivers req o ⊎ Discloses req o)

  after_provider-IsAnswered :
      (req : ChatRequest) (input : InputScan) (decision : Risk.Decision)
      (reply : Result Provider.Error Provider.Response)
      → reply_to req ≡ reply
      → IsAnswered req (after_provider env req input decision reply)
  unfolding after_provider answer_failed scan_output
  after_provider-IsAnswered req input decision (err e) h = inl (ground arith, inr (e, h), tt)
  after_provider-IsAnswered req input decision (ok r) h =
      elim (Bool-cases (is_empty (scan_secrets env.engine r.content))) [
        | inl clean ↦
            rw (after_provider, scan_output, clean)
              (inr (inl (refl, r, h, is_empty-nil _ clean, refl)))
        | inr dirty ↦
            rw (after_provider, scan_output, dirty)
              (inr (inr (refl, r, h, is_empty-ne_nil _ dirty, refl)))
      ]

  -- What an answer carries of a model's text. Without a provider's reply it carries none, and its
  -- status is not 200. With a reply in which no secret is found it is a 200 with the reply's text,
  -- redacted, as the response and in the output scan. With a reply in which a secret is found it is a
  -- 403 with an empty response, and its output scan has the reply's text, of which only personal
  -- data is redacted.
  pub chat_handler-IsAnswered :
      (req : ChatRequest) → IsAnswered (with_default req) (chat_handler env (some req))
  unfolding chat_handler pipeline answer_blocked
  chat_handler-IsAnswered req =
      let P = IsAnswered (with_default req) in
      if_elim P (is_empty req.messages) (λ h. inl (λ e. absurd (omega arith), inl refl, tt))
        (λ h.
          if_elim P (blocks env (decision_of env (with_default req)).action)
            (λ b. inl (λ e. absurd (omega arith), inl refl, (refl, tt)))
            (λ b.
              after_provider-IsAnswered (with_default req) _ _ (reply_to (with_default req)) refl))
