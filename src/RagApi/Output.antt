-- ===== src/RagApi/Output.antt =====
-- What RAGChatHandler (gateway/internal/api/rag_chat.go) answers after the provider's call.
use sentrymesh.Base.{
  ℕ, ◌≡◌, ◌≢◌, ◌⊎◌, inl, inr, refl, arith, String, [], ◌∷◌, is_empty, is_empty-nil, is_empty-ne_nil,
  some, Result, ok, err, if_elim, not, none,
}
use sentrymesh.Identity.{Identity}
use sentrymesh.Scanner.{scan_secrets, scan_and_redact_pii, scan_output}
use sentrymesh.Provider
use sentrymesh.Rag.Pipeline.{PipelineResult, build_context}
use sentrymesh.RagApi.{
  Env, scanner_of, RagChatRequest, Body, prompt_of, with_defaults, after_reply, rag_pipeline,
  rag_chat_handler,
}
use sentrymesh.RagApi.Context.{text_of}

module _ (env : Env) where
  -- The provider failed, and the answer says nothing of a reply.
  abbrev pub Withholds : Result Provider.Error Provider.Response → ℕ × Body → Type 0
  Withholds reply answer =
      (answer.0 ≡ 502)
      × ((e : Provider.Error) × (reply ≡ err e))
      × (text_of env answer.1 ≡ ("", none))

  -- The provider replied: with a secret, the answer is a 403 without a response, and without one, a
  -- 200 with the redacted text; either has the scan of the reply, with that text.
  abbrev pub Scans : Result Provider.Error Provider.Response → ℕ × Body → Type 0
  Scans reply answer =
      (r : Provider.Response) × (reply ≡ ok r)
      × ((text_of env answer.1).1 ≡ some (scan_output env.engine r.content))
      × (((answer.0 ≡ 200)
            × (scan_secrets env.engine r.content ≡ [])
            × ((text_of env answer.1).0 ≡ (scan_and_redact_pii env.engine r.content).0))
          ⊎ ((answer.0 ≡ 403)
              × (scan_secrets env.engine r.content ≢ [])
              × ((text_of env answer.1).0 ≡ "")))

  abbrev pub IsScanned : Result Provider.Error Provider.Response → ℕ × Body → Type 0
  IsScanned reply answer = Withholds reply answer ⊎ Scans reply answer

  after_reply-IsScanned :
      (req : RagChatRequest) (result : PipelineResult)
      (reply : Result Provider.Error Provider.Response)
      → IsScanned reply (after_reply env req result reply)
  unfolding after_reply scan_output
  after_reply-IsScanned req result (err e) = inl (refl, (e, refl), refl)
  after_reply-IsScanned req result (ok r) =
      if_elim (IsScanned (ok r)) (not (is_empty (scan_secrets env.engine r.content)))
        (λ dirty. inr (r, refl, refl, inr (refl, is_empty-ne_nil _ (ground (arith, dirty)), refl)))
        (λ clean. inr (r, refl, refl, inl (refl, is_empty-nil _ (ground (arith, clean)), refl)))

  -- The one call of a provider decides the answer. When the provider fails, it is a 502 that says
  -- nothing of a reply. Otherwise the answer has the scan of the reply, with its text, of which only
  -- personal data is redacted: as a 200 that also has this text as the response when no secret is
  -- found in the reply, and as a 403 without a response when one is found.
  pub rag_chat_handler-IsScanned :
      (principal : Identity) (req : RagChatRequest)
      → let o = rag_chat_handler env (some principal) (some req) in
        (provider : String) × (prompt : Provider.Request) × (o.calls ≡ (provider, prompt) ∷ [])
        × IsScanned (Provider.chat env.router env.called provider prompt) (o.status, o.body)
  unfolding rag_chat_handler rag_pipeline
  rag_chat_handler-IsScanned principal req =
      let full = with_defaults env req in
      let result = build_context (scanner_of env) full.request_id env.now principal req.documents in
      (
        full.provider,
        prompt_of full.model result.context full.query,
        refl,
        after_reply-IsScanned full result _,
      )
