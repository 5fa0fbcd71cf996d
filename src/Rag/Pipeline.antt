-- ===== src/Rag/Pipeline.antt =====
-- BuildContext (gateway/internal/rag/pipeline.go). The slices of documents and of the indexes of
-- their entries, which grow together, are one list of pairs; an assignment to a field of
-- `entries[i]` is `set_at`.
use Prim.Native.String.{◌++◌}
use sentrymesh.Base.{
  ℕ, zero, suc, String, Bool, true, false, ◌&&◌, List, [], ◌∷◌, length, map, ltb, if◌then◌else◌,
}
use mathlib.Core.List.{◌++◌ as append}
use sentrymesh.Identity.{Identity}
use sentrymesh.Rag.{
  TrustLevel, Document, Decision, allow, block, Reason, pending_checks, combined_injection,
  sanitized_injection, Scanner, is_block, authorize, inspect,
}

pub record ContextEntry : Type 0 where
  pub document_id : String
  pub source : String
  pub trust_level : TrustLevel
  pub classification : String
  pub owner_team : String
  pub decision : Decision
  pub included : Bool
  pub reason : Reason

pub record ContextTrace : Type 0 where
  pub request_id : String
  pub timestamp : ℕ
  pub entries : List ContextEntry

pub record PipelineResult : Type 0 where
  pub context : List Document
  pub trace : ContextTrace

abbrev pub entry_of : Document → Decision → Reason → ContextEntry
entry_of document decision reason = record {
  document_id = document.id;
  source = document.source;
  trust_level = document.trust_level;
  classification = document.classification;
  owner_team = document.owner_team;
  decision = decision;
  included = false;
  reason = reason;
}

unfoldable pub set_at : ℕ → (ContextEntry → ContextEntry) → List ContextEntry → List ContextEntry
set_at i f [] = []
set_at zero f (entry ∷ entries) = f entry ∷ entries
set_at (suc i) f (entry ∷ entries) = entry ∷ set_at i f entries

abbrev pub judged : Decision → Reason → ContextEntry → ContextEntry
judged decision reason entry = record entry { decision = decision; reason = reason }

abbrev pub refused : Reason → ContextEntry → ContextEntry
refused reason entry = record entry { decision = block; included = false; reason = reason }

abbrev pub admitted : ContextEntry → ContextEntry
admitted entry = record entry { included = true }

pub record Stage : Type 0 where
  pub entries : List ContextEntry
  pub documents : List (ℕ × Document)

-- The same assignment at the entry of each document of a list.
unfoldable pub mark :
    (ContextEntry → ContextEntry) → List (ℕ × Document) → List ContextEntry → List ContextEntry
unfolding set_at
mark f [] entries = entries
mark f (d ∷ documents) entries = mark f documents (set_at d.0 f entries)

abbrev pub result_of : String → ℕ → List Document → List ContextEntry → PipelineResult
result_of request_id now context entries = record {
  context = context;
  trace = record { request_id = request_id; timestamp = now; entries = entries };
}

abbrev pub start : Stage
start = record { entries = []; documents = [] }

module _ (env : Scanner) where
  unfoldable pub authorize_one : Identity → Document → Stage → Stage
  unfolding authorize
  authorize_one principal document s =
      let auth = authorize env document principal in
      if auth.0
      then record {
        entries = append s.entries (entry_of document allow pending_checks ∷ []);
        documents = append s.documents ((length s.entries, document) ∷ []);
      }
      else record s { entries = append s.entries (entry_of document block auth.1 ∷ []) }

  unfoldable pub authorize_all : Identity → List Document → Stage → Stage
  unfolding authorize_one
  authorize_all principal [] s = s
  authorize_all principal (document ∷ documents) s =
      authorize_all principal documents (authorize_one principal document s)

  unfoldable pub combined : List (ℕ × Document) → String
  combined [] = ""
  combined (d ∷ documents) = d.1.content ++ ("\n" ++ combined documents)

  unfoldable pub inspect_one : ℕ × Document → Stage → Stage
  unfolding set_at inspect
  inspect_one d s =
      let result = inspect env d.1 in
      let entries = set_at d.0 (judged result.decision result.reason) s.entries in
      if is_block result.decision then record s { entries = entries } else record {
        entries = entries;
        documents = append s.documents ((d.0, record d.1 { content = result.sanitized }) ∷ []);
      }

  unfoldable pub inspect_all : List (ℕ × Document) → Stage → Stage
  unfolding inspect_one
  inspect_all [] s = s
  inspect_all (d ∷ documents) s = inspect_all documents (inspect_one d s)

  unfoldable pub build_context : String → ℕ → Identity → List Document → PipelineResult
  unfolding authorize_all combined inspect_all mark
  build_context request_id now principal documents =
      let authorized = authorize_all principal documents start in
      let safe = inspect_all authorized.documents (record start { entries = authorized.entries }) in
      if env.detects (combined authorized.documents) && ltb 1 (length authorized.documents)
      then result_of request_id now []
          (mark (refused combined_injection) authorized.documents authorized.entries)
      else if env.detects (combined safe.documents)
      then result_of request_id now []
          (mark (refused sanitized_injection) safe.documents safe.entries)
      else result_of request_id now (map (λ d. d.1) safe.documents)
          (mark admitted safe.documents safe.entries)
