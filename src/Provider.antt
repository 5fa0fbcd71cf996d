-- ===== src/Provider.antt =====
-- gateway/internal/provider: the providers by their names (router.go, defaults.go), the mock provider
-- (mock.go), and what a handler takes for a timeout (gateway/internal/api/provider_timeout.go). A
-- provider is a function from a request to an answer; the Ollama one is a parameter.
use Prim.Native.String.{◌++◌}
use sentrymesh.Base.{
  String, Bool, true, false, ◌||◌, List, [], ◌∷◌, Option, none, some, StringMap, lookup, insert,
  Result, ok, err, str_eq, if◌then◌else◌,
}

pub record Message : Type 0 where
  pub role : String
  pub content : String

pub record Request : Type 0 where
  pub model : String
  pub messages : List Message

pub record Response : Type 0 where
  pub id : String
  pub model : String
  pub content : String

pub data Error : Type 0 where
  deadline_exceeded : Error
  cancelled : Error
  empty_messages : Error  -- "messages cannot be empty"
  unknown_provider : String → Error  -- "unknown provider: %s"
  request_failed : Error

-- Whether the context is done, and with which error, and the request.
abbrev pub Provider : Type 0
Provider = Option Error → Request → Result Error Response

abbrev pub Router : Type 0
Router = StringMap Provider

abbrev pub new_router : Router
new_router = []

unfoldable pub register : String → Provider → Router → Router
register name p r = insert name p r

unfoldable pub chat : Router → Option Error → String → Request → Result Error Response
chat r done provider_name req = elim (lookup provider_name r) [
  | none ↦ err (unknown_provider provider_name)
  | some p ↦ p done req
]

unfoldable pub last_message : Message → List Message → Message
last_message m [] = m
last_message m (next ∷ rest) = last_message next rest

abbrev pub mock_content : String → String
mock_content content =
    if str_eq content "TEST_OUTPUT_SECRET"
    then "Leaked key: AKIA1234567890ABCDEF"
    else if str_eq content "TEST_OUTPUT_PII"
    then "Contact alice@example.com for assistance."
    else "Mock model response to: " ++ content

abbrev pub mock_reply : String → List Message → Result Error Response
mock_reply model [] = err empty_messages
mock_reply model (first ∷ rest) = ok (record {
  id = "mock_completion";
  model = model;
  content = mock_content (last_message first rest).content;
})

unfoldable pub mock_chat : Provider
unfolding last_message
mock_chat (some e) req = err e
mock_chat none req = mock_reply req.model req.messages

unfoldable pub new_default_router : Provider → Router
unfolding register mock_chat
new_default_router ollama = register "ollama" ollama (register "mock" mock_chat new_router)

-- `errors.Is(ctx.Err(), context.DeadlineExceeded) || errors.Is(err, context.DeadlineExceeded)`
abbrev pub is_deadline : Error → Bool
is_deadline deadline_exceeded = true
is_deadline _ = false

abbrev pub ran_out : Option Error → Bool
ran_out none = false
ran_out (some e) = is_deadline e

unfoldable pub is_provider_timeout : Option Error → Error → Bool
is_provider_timeout done e = ran_out done || is_deadline e
