-- ===== src/Chat.antt =====
-- gateway/internal/api/chat.go: ChatHandler, from the decoded body to the answer, stage by stage. The
-- handler's effects are its outcome: the calls of a provider, the audit events that it writes and
-- the counters that it raises, in order. The error of an audit write is ignored. Durations, request
-- ids and tracing spans are left out.
pub mod Input
pub mod Output
pub mod Review
pub mod Secrets
mod Tests
use Prim.Native.String.{◌++◌}
use sentrymesh.Base.{
  ℕ, max, String, Bool, true, false, not, List, [], ◌∷◌, map, length, is_empty, Option, none, some,
  Result, ok, err, str_eq, if◌then◌else◌,
}
use sentrymesh.Scanner.{
  Engine, Finding, PiiFinding, OutputScan, scan_secrets, scan_and_redact_pii, scan_output,
}
use sentrymesh.Scanner.Injection.{InjectionFinding, scan_prompt_injection}
use sentrymesh.Risk.{Action, block, allow_with_redaction, Severity, critical}
use sentrymesh.Risk
use sentrymesh.Provider.{Message, Router, is_provider_timeout}
use sentrymesh.Provider

pub record ChatRequest : Type 0 where
  pub model : String
  pub provider : String
  pub messages : List Message

-- What the handler takes from outside: the scanner's engine, `strings.TrimSpace`, the providers, and
-- how the provider's context stands when the provider is called and when its call has returned.
pub record Env : Type 0 where
  pub engine : Engine
  pub trim : String → String
  pub router : Router
  pub called : Option Provider.Error
  pub returned : Option Provider.Error

pub record InputScan : Type 0 where
  pub secrets : List Finding
  pub injections : List InjectionFinding
  pub sanitized : String
  pub pii : List PiiFinding

pub record Event : Type 0 where
  pub provider : String
  pub model : String
  pub decision : Risk.Decision
  pub input : InputScan
  pub output : Option OutputScan

pub data Text : Type 0 where
  blocked_by_policy : Text  -- "request blocked by SentryMesh security policy"
  output_blocked : Text  -- "model output blocked by SentryMesh security policy"
  passed_checks : Text  -- "request passed SentryMesh security checks"
  input_redacted : Text  -- "request allowed after sensitive data redaction"
  output_redacted : Text  -- "request allowed after output redaction"

pub record SecurityResponse : Type 0 where
  pub decision : Risk.Decision
  pub message : Text
  pub input : InputScan
  pub model_response : String
  pub output : Option OutputScan

pub data Body : Type 0 where
  failure : Body
  security : SecurityResponse → Body

pub data Counter : Type 0 where
  security_block redaction provider_error : Counter

pub record Outcome : Type 0 where
  pub status : ℕ
  pub body : Body
  pub calls : List (String × Provider.Request)
  pub events : List Event
  pub counters : List Counter

abbrev pub reject : ℕ → Outcome
reject status = record { status = status; body = failure; calls = []; events = []; counters = [] }

-- `req.Provider == ""`
abbrev pub with_default : ChatRequest → ChatRequest
with_default req = if str_eq req.provider "" then record req { provider = "mock" } else req

unfoldable pub prompt_text : List Message → String
prompt_text [] = ""
prompt_text (m ∷ messages) = m.content ++ ("\n" ++ prompt_text messages)

-- The loop for `maxInjectionScore`
unfoldable pub max_confidence : ℕ → List InjectionFinding → ℕ
max_confidence best [] = best
max_confidence best (f ∷ findings) = max_confidence (max best f.confidence) findings

module _ (env : Env) where
  unfoldable pub scan_input : String → InputScan
  scan_input raw_prompt = record {
    secrets = scan_secrets env.engine raw_prompt;
    injections = scan_prompt_injection env.engine raw_prompt;
    sanitized = (scan_and_redact_pii env.engine raw_prompt).0;
    pii = (scan_and_redact_pii env.engine raw_prompt).1;
  }

  unfoldable pub decide : InputScan → Risk.Decision
  unfolding max_confidence
  decide input = Risk.evaluate (record {
    secret_count = length input.secrets;
    pii_count = length input.pii;
    injection_count = length input.injections;
    max_injection = max_confidence 0 input.injections;
  })

  abbrev pub event_of : ChatRequest → Risk.Decision → InputScan → Option OutputScan → Event
  event_of req decision input output = record {
    provider = req.provider;
    model = req.model;
    decision = decision;
    input = input;
    output = output;
  }

  unfoldable pub answer_blocked : ChatRequest → InputScan → Risk.Decision → Outcome
  answer_blocked req input decision = record {
    status = 403;
    body = security (record {
      decision = decision;
      message = blocked_by_policy;
      input = input;
      model_response = "";
      output = none;
    });
    calls = [];
    events = event_of req decision input none ∷ [];
    counters = security_block ∷ [];
  }

  -- The messages that the provider is given.
  abbrev pub redact_message : Message → Message
  redact_message m = record m { content = (scan_and_redact_pii env.engine m.content).0 }

  unfoldable pub provider_request : ChatRequest → Provider.Request
  provider_request req = record { model = req.model; messages = map redact_message req.messages }

  unfoldable pub answer_failed : ChatRequest → Provider.Error → Outcome
  unfolding provider_request
  answer_failed req e = record {
    status = if is_provider_timeout env.returned e then 504 else 502;
    body = failure;
    calls = (req.provider, provider_request req) ∷ [];
    events = [];
    counters = provider_error ∷ [];
  }

  abbrev pub blocked_output : Risk.Decision
  blocked_output = record { score = 100; severity = critical; action = block }

  unfoldable pub answer_unsafe : ChatRequest → InputScan → OutputScan → Outcome
  unfolding provider_request
  answer_unsafe req input output = record {
    status = 403;
    body = security (record {
      decision = blocked_output;
      message = output_blocked;
      input = input;
      model_response = "";
      output = some output;
    });
    calls = (req.provider, provider_request req) ∷ [];
    events = [];
    counters = [];
  }

  abbrev pub redacts : Action → Bool
  redacts allow_with_redaction = true
  redacts _ = false

  abbrev pub blocks : Action → Bool
  blocks block = true
  blocks _ = false

  unfoldable pub final_text : Risk.Decision → OutputScan → Text
  final_text decision output =
      if not (is_empty output.pii_findings)
      then output_redacted
      else if redacts decision.action
      then input_redacted
      else passed_checks

  unfoldable pub answer_safe : ChatRequest → InputScan → Risk.Decision → OutputScan → Outcome
  unfolding provider_request final_text
  answer_safe req input decision output = record {
    status = 200;
    body = security (record {
      decision = decision;
      message = final_text decision output;
      input = input;
      model_response = output.redacted;
      output = some output;
    });
    calls = (req.provider, provider_request req) ∷ [];
    events = event_of req decision input (some output) ∷ [];
    counters = if redacts decision.action then redaction ∷ [] else [];
  }

  unfoldable pub after_provider :
      ChatRequest → InputScan → Risk.Decision → Result Provider.Error Provider.Response → Outcome
  unfolding answer_failed answer_unsafe answer_safe
  after_provider req input decision (err e) = answer_failed req e
  after_provider req input decision (ok reply) =
      let output = scan_output env.engine reply.content in
      if not output.safe
      then answer_unsafe req input output
      else answer_safe req input decision output

  unfoldable pub pipeline : ChatRequest → Outcome
  unfolding scan_input decide answer_blocked provider_request after_provider prompt_text
  pipeline req =
      let input = scan_input (env.trim (prompt_text req.messages)) in
      let decision = decide input in
      if blocks decision.action
      then answer_blocked req input decision
      else after_provider req input decision
          (Provider.chat env.router env.called req.provider (provider_request req))

  -- `none` is a body that does not decode.
  unfoldable pub chat_handler : Option ChatRequest → Outcome
  unfolding pipeline
  chat_handler none = reject 400
  chat_handler (some req) =
      if is_empty req.messages then reject 400 else pipeline (with_default req)
