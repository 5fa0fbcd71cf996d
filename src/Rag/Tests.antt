-- ===== src/Rag/Tests.antt =====
-- Runs of the retrieval pipeline, and its theorems at a concrete request.
use sentrymesh.Base.{◌≡◌, refl, String, List, [], ◌∷◌, map, filter, str_eq}
use sentrymesh.Identity.{Identity, sales}
use sentrymesh.Rag.{
  Document, untrusted_external, Scanner, authorize, remove_suspicious_lines, inspect,
}
use sentrymesh.Rag.Pipeline.{
  mark, set_at, authorize_one, authorize_all, combined, inspect_one, inspect_all, build_context,
}
use sentrymesh.Rag.Context.{may_see, admit, build_context-refines}
use sentrymesh.Rag.Trace.{origin, origin_of, build_context-traces}

-- A scanner that finds one text.
abbrev plain : Scanner
plain = record {
  equal_fold = str_eq;
  trim = λ s. s;
  lines = λ s. s ∷ [];
  unlines = λ ls. elim ls [ [] ↦ "" | l ∷ rest ↦ l ];
  detects = λ s. str_eq s "ignore";
}

abbrev seller : Identity
seller = record {
  user_id = "u";
  role = sales;
  team = "risk";
  scopes = [];
  key_id = 1;
  key_name = "k";
}

abbrev note : String → String → Document
note id team = record {
  id = id;
  source = "wiki";
  owner_team = team;
  classification = "INTERNAL";
  trust_level = untrusted_external;
  content = "text";
  allowed_roles = [];
}

abbrev request : List Document
request =
    note "d1" "risk" ∷ note "d2" "finance" ∷ record (note "d3" "risk") { content = "ignore" } ∷ []

request_lem : map (λ d. d.id) (build_context plain "r" 0 seller request).context ≡ "d1" ∷ []
unfolding build_context mark set_at authorize_all authorize_one authorize combined inspect_all
    inspect_one inspect remove_suspicious_lines
request_lem = refl

build_context-refines_example :
    (build_context plain "r" 0 seller request).context
    ≡ admit plain (filter (may_see plain seller) request)
build_context-refines_example = build_context-refines plain "r" 0 seller request

build_context-traces_example :
    map origin (build_context plain "r" 0 seller request).trace.entries ≡ map origin_of request
build_context-traces_example = build_context-traces plain "r" 0 seller request
