-- ===== src/RagApi/Context.antt =====
-- What a caller's documents and question make of the prompt of RAGChatHandler
-- (gateway/internal/api/rag_chat.go).
use sentrymesh.Base.{
  String, ◌≡◌, refl, ap, ◌∙◌, List, [], ◌∷◌, All, filter, Option, none, some, Result, ok, err,
  Bool-cases, inl, inr,
}
use sentrymesh.Identity.{Identity}
use sentrymesh.Provider
use sentrymesh.Scanner.{OutputScan, scan_output}
use sentrymesh.Rag.{Document}
use sentrymesh.Rag.Pipeline.{PipelineResult, build_context}
use sentrymesh.Rag.Context.{may_see, IsSourced, build_context-unseen, build_context-IsSourced}
use sentrymesh.RagApi.{
  Env, scanner_of, or_default, RagChatRequest, Body, answered, output_blocked, prompt_of,
  with_defaults, after_reply, rag_pipeline, rag_chat_handler,
}

module _ (env : Env) where
  -- What an answer says of the model's reply: the text of the response, and the scan of the output,
  -- which has the text too. The trace of the documents is left out.
  abbrev pub text_of : Body → String × Option OutputScan
  text_of (answered r) = (r.response, some r.output_scan)
  text_of (output_blocked _ output) = ("", some output)
  text_of _ = ("", none)

  -- The request without the documents that the caller may not see.
  abbrev pub without_unseen : Identity → RagChatRequest → RagChatRequest
  without_unseen principal req = record req {
    documents = filter (may_see (scanner_of env) principal) req.documents;
  }

  after_reply-alike :
      (req : RagChatRequest) (documents : List Document) (one two : PipelineResult)
      (r : Result Provider.Error Provider.Response)
      → ((after_reply env req one r).0
          ≡ (after_reply env (record req { documents = documents }) two r).0)
        × (text_of (after_reply env req one r).1
            ≡ text_of (after_reply env (record req { documents = documents }) two r).1)
  unfolding after_reply
  after_reply-alike req documents one two (err e) = (refl, refl)
  after_reply-alike req documents one two (ok reply) =
      elim (Bool-cases (scan_output env.engine reply.content).safe) [
        | inl e ↦ rw e (refl, refl)
        | inr e ↦ rw e (refl, refl)
      ]

  -- Documents that the caller may not see change neither what a provider is sent, nor the status, the
  -- text and the output scan that the caller is answered.
  pub rag_chat_handler-unseen :
      (principal : Identity) (req : RagChatRequest)
      → let o = rag_chat_handler env (some principal) (some req) in
        let p = rag_chat_handler env (some principal) (some (without_unseen principal req)) in
        (o.calls ≡ p.calls) × (o.status ≡ p.status) × (text_of o.body ≡ text_of p.body)
  unfolding rag_chat_handler rag_pipeline
  rag_chat_handler-unseen principal req =
      let full = with_defaults env req in
      let one = build_context (scanner_of env) full.request_id env.now principal req.documents in
      let two =
        build_context (scanner_of env) full.request_id env.now principal
          (filter (may_see (scanner_of env) principal) req.documents) in
      let same : one.context ≡ two.context =
        build_context-unseen (scanner_of env) full.request_id env.now principal req.documents in
      let reply = λ (ds : List Document).
        Provider.chat env.router env.called full.provider (prompt_of full.model ds full.query) in
      let alike =
        after_reply-alike full (filter (may_see (scanner_of env) principal) req.documents) one two
          (reply two.context) in
      (
        ap (λ ds. (full.provider, prompt_of full.model ds full.query) ∷ []) same,
        ap (λ ds. (after_reply env full one (reply ds)).0) same ∙ alike.0,
        ap (λ ds. text_of (after_reply env full one (reply ds)).1) same ∙ alike.1,
      )

  -- A provider is called once, with a prompt of the query as it was given and of documents each of
  -- which is one of the request that the caller may see and that the firewall does not block, with
  -- the text that the firewall leaves of it.
  pub rag_chat_handler-IsSourced :
      (principal : Identity) (req : RagChatRequest)
      → (documents : List Document) × ((rag_chat_handler env (some principal) (some req)).calls
          ≡ (
            or_default req.provider "ollama",
            prompt_of (or_default req.model "llama3.2:3b") documents req.query,
          )
            ∷ [])
        × All (IsSourced (scanner_of env) principal req.documents) documents
  unfolding rag_chat_handler rag_pipeline
  rag_chat_handler-IsSourced principal req =
      let id = or_default req.request_id env.request_id in
      (
        (build_context (scanner_of env) id env.now principal req.documents).context,
        refl,
        build_context-IsSourced (scanner_of env) id env.now principal req.documents,
      )
