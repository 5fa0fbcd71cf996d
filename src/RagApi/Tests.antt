-- ===== src/RagApi/Tests.antt =====
-- Runs of the handlers over the retrieval pipeline, and their theorems at a concrete request.
use sentrymesh.Base.{◌≡◌, String, false, List, [], ◌∷◌, All, none, some, Result, err, str_eq}
use sentrymesh.Identity.{Identity, sales}
use sentrymesh.Scanner.{Engine}
use sentrymesh.Provider.{Request, Response, Error, request_failed, new_default_router}
use sentrymesh.Rag.{Document, untrusted_external}
use sentrymesh.Rag.Context.{IsSourced}
use sentrymesh.RagApi.{Env, scanner_of, RagChatRequest, prompt_of, rag_chat_handler}
use sentrymesh.RagApi.Context.{
  text_of, without_unseen, rag_chat_handler-unseen, rag_chat_handler-IsSourced,
}

abbrev silent : Engine
silent = record {
  matches = λ p s. false;
  find = λ p s. "";
  find_all = λ p s. [];
  replace_all = λ p s r. s;
  decode_base64 = λ s. none;
  to_lower = λ s. s;
  contains = λ s part. false;
  squeeze = λ s. s;
  is_format = λ c. false;
}

abbrev offline : Request → Result Error Response
offline req = err request_failed

abbrev env : Env
env = record {
  engine = silent;
  equal_fold = str_eq;
  trim = λ s. s;
  lines = λ s. s ∷ [];
  unlines = λ ls. elim ls [ [] ↦ "" | l ∷ rest ↦ l ];
  router = new_default_router (λ done. offline);
  called = none;
  request_id = "r";
  now = 0;
}

abbrev seller : Identity
seller = record {
  user_id = "u";
  role = sales;
  team = "risk";
  scopes = [];
  key_id = 1;
  key_name = "k";
}

abbrev note : String → String → Document
note id team = record {
  id = id;
  source = "wiki";
  owner_team = team;
  classification = "INTERNAL";
  trust_level = untrusted_external;
  content = "text";
  allowed_roles = [];
}

abbrev asked : RagChatRequest
asked = record {
  request_id = "";
  provider = "mock";
  model = "";
  query = "why?";
  documents = note "d1" "risk" ∷ note "d2" "finance" ∷ [];
}

rag_chat_handler-unseen_example :
    let o = rag_chat_handler env (some seller) (some asked) in
    let p = rag_chat_handler env (some seller) (some (without_unseen env seller asked)) in
    (o.calls ≡ p.calls) × (o.status ≡ p.status) × (text_of env o.body ≡ text_of env p.body)
rag_chat_handler-unseen_example = rag_chat_handler-unseen env seller asked

rag_chat_handler-IsSourced_example :
    (documents : List Document) × ((rag_chat_handler env (some seller) (some asked)).calls
      ≡ ("mock", prompt_of "llama3.2:3b" documents "why?") ∷ [])
    × All (IsSourced (scanner_of env) seller asked.documents) documents
rag_chat_handler-IsSourced_example = rag_chat_handler-IsSourced env seller asked
