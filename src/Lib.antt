-- ===== src/Lib.antt =====
-- SentryMesh: the gateway's decisions on API keys, chats, tool calls, approvals, retrieval, abuse and
-- audit.
--
-- The program is a Go gateway in front of language models. A request passes the middlewares, which
-- authenticate it, stop keys in a cooldown and limit their rate, and reaches a handler. The chat
-- handlers scan it, grade its risk and may build a retrieval context; the tool handlers evaluate a
-- policy and, where it says so, store a request for an approval, which an admin resolves and
-- executes. Every decision leaves an audit event, through a queue in front of the audit store.
--
-- Which file models which part:
-- - Base: shared names, tests, lists, maps with string keys, results, times.
-- - Scanner: gateway/internal/scanner. `scan_secrets`, `scan_and_redact_pii` and `scan_output` are
--   ScanSecrets, ScanAndRedactPII and ScanOutput; Scanner/Injection has ScanPromptInjection with its
--   normalisation, its encoded payloads and its exception for quoted examples. A pattern is its
--   text, and the engine that matches it is the parameter `Engine`.
-- - Provider: gateway/internal/provider, the router and the mock, and the timeouts of
--   gateway/internal/api/provider_timeout.go.
-- - Chat: gateway/internal/api/chat.go. `chat_handler` is ChatHandler, one function per stage.
-- - Auth: gateway/internal/auth/store.go, one function per method of Store; Auth/Postgres is
--   gateway/internal/auth/postgres.go; Auth/Guard is gateway/internal/middleware/auth.go and scope.go;
--   Auth/Keys is gateway/internal/api/keys.go.
-- - ToolApi: gateway/internal/api/tools.go and approvals.go, over the policy and the approval store.
-- - RagApi: gateway/internal/api/rag.go, rag_context.go and rag_chat.go, over the retrieval pipeline,
--   the scanner and the router.
-- - Risk: gateway/internal/risk/engine.go. `evaluate` is Evaluate.
-- - Identity: gateway/internal/identity/identity.go.
-- - Json: the values of encoding/json, and the type assertions of the policy.
-- - Tools: gateway/internal/tools/policy.go. `evaluate` is Evaluate, with one function per tool.
-- - Executor: gateway/internal/executor/executor.go. `execute` is Execute.
-- - Sql: the statements that the stores send, on a table as a list of rows.
-- - Approval: gateway/internal/approval/store.go. One function per method of Store (`create`, `get`,
--   `set_status`, `claim_execution`, `finish_execution`, `fail_execution`, `list_pending`,
--   `list_active`); a statement is executed at once, or fails without an effect when the database
--   does not answer. Its children follow a row through a sequence of statements; Approval/Postgres is
--   gateway/internal/approval/postgres.go.
-- - Execution: gateway/internal/api/execute.go. `advance` takes ExecuteApprovalHandler from one
--   access to the store or the audit log to the next; System interleaves any number of handlers
--   with the handlers that create and resolve requests.
-- - Abuse: gateway/internal/abuse/tracker.go, over the interface `Repository` of
--   gateway/internal/abuse/repository.go with the laws `IsFaithful`; Abuse/Store is
--   gateway/internal/abuse/store.go, which implements it, and
--   Abuse/Postgres is gateway/internal/abuse/postgres.go.
-- - AbuseGuard: gateway/internal/middleware/abuse.go and ratelimit.go, over the tracker and the
--   limiter, with the handler behind them as a parameter.
-- - Rag: gateway/internal/rag. `authorize` is Authorize, `inspect` is Inspect, and `build_context`
--   of Rag/Pipeline is BuildContext. The scanner is the interface `Scanner`.
-- - Async: gateway/internal/audit/async.go and batch.go, the bounded queue and its goroutine, as
--   steps that may come in any order. A failed call of the store may leave any first part of a batch,
--   unless a theorem excludes it; Async/Failing is WriteBatch of gateway/internal/audit/failing.go.
-- - RateLimit: gateway/internal/ratelimit/limiter.go. `allow` is Allow.
-- - Migrations: gateway/internal/database/migrations.go. `run_migrations` is RunMigrations.
-- - Seed: gateway/cmd/sentrymesh/seed.go. `seed_api_keys` is seedAPIKeys.
--
-- Each module has a child Tests with runs on concrete data and the theorems applied to them.
--
-- Conventions. Numbers are natural numbers; the risk and abuse scores and the counters are far below
-- the bounds of their machine types, and time.Sub saturates as in Go. No definition needs fuel: all
-- loops go over lists. A mutex that is held for a whole call makes it one step. The rate limiter
-- computes exactly where Go uses float64. Go's Unicode case folding, its text functions, SHA-256,
-- the codec of JSON, the format of times, and what a JSONB or TIMESTAMPTZ column keeps of a value are
-- parameters, with the laws that a theorem needs as its hypotheses.
--
-- Not modelled: the HTTP layer, the engine of the regular expressions, the clients of Ollama and
-- OpenAI, the audit tables and the reads of them, metrics (the counters of the audit queue
-- included) and tracing, the opening of databases, and the programs that wire, load and evaluate
-- the gateway: they are third-party calls, statements over JSON columns, or reports, and decide
-- nothing about a request.
mod Base
pub mod Scanner
pub mod Provider
pub mod Risk
pub mod Identity
pub mod Json
pub mod Tools
pub mod Chat
pub mod Auth
pub mod ToolApi
pub mod RagApi
pub mod Migrations
pub mod Seed
pub mod Executor
pub mod Sql
pub mod Approval
pub mod Execution
pub mod Abuse
pub mod AbuseGuard
pub mod Rag
pub mod Async
pub mod RateLimit
