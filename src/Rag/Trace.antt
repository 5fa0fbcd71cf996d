-- ===== src/Rag/Trace.antt =====
-- The trace of BuildContext (gateway/internal/rag/pipeline.go).
use mathlib.Core.List.{◌++◌ as append, append-nil}
use sentrymesh.Base.{
  ℕ, zero, suc, ◌≡◌, refl, sym, ap, ◌∙◌, String, List, [], ◌∷◌, map, if_elim, length, ltb, ◌&&◌,
}
use sentrymesh.Identity.{Identity}
use sentrymesh.Rag.{
  Document, TrustLevel, Scanner, is_block, authorize, inspect, allow, block, pending_checks,
  combined_injection, sanitized_injection,
}
use sentrymesh.Rag.Pipeline.{
  ContextEntry, PipelineResult, mark, set_at, judged, refused, admitted, entry_of, Stage, start,
  authorize_one, authorize_all, combined, inspect_one, inspect_all, build_context,
}

-- What an entry says of its document.
abbrev pub Origin : Type 0
Origin = String × String × TrustLevel × String × String

abbrev pub origin : ContextEntry → Origin
origin e = (e.document_id, e.source, e.trust_level, e.classification, e.owner_team)

abbrev pub origin_of : Document → Origin
origin_of d = (d.id, d.source, d.trust_level, d.classification, d.owner_team)

set_at-origin :
    (f : ContextEntry → ContextEntry) (i : ℕ) (entries : List ContextEntry)
    → ((e : ContextEntry) → origin (f e) ≡ origin e)
    → map origin (set_at i f entries) ≡ map origin entries
unfolding set_at
set_at-origin f i [] keeps = refl
set_at-origin f zero (e ∷ entries) keeps = ap (λ o. o ∷ map origin entries) (keeps e)
set_at-origin f (suc i) (e ∷ entries) keeps =
    ap (λ os. origin e ∷ os) (set_at-origin f i entries keeps)

mark-origin :
    (f : ContextEntry → ContextEntry) (ds : List (ℕ × Document)) (entries : List ContextEntry)
    → ((e : ContextEntry) → origin (f e) ≡ origin e)
    → map origin (mark f ds entries) ≡ map origin entries
unfolding mark
mark-origin f [] entries keeps = refl
mark-origin f (d ∷ ds) entries keeps =
    mark-origin f ds (set_at d.0 f entries) keeps ∙ set_at-origin f d.0 entries keeps

map-concat :
    (entries : List ContextEntry) (e : ContextEntry) (rest : List Origin)
    → append (map origin (append entries (e ∷ []))) rest
      ≡ append (map origin entries) (origin e ∷ rest)
map-concat [] e rest = refl
map-concat (x ∷ entries) e rest = ap (λ os. origin x ∷ os) (map-concat entries e rest)

module _ (env : Scanner) where
  authorize_one-origin :
      (principal : Identity) (d : Document) (s : Stage) (rest : List Origin)
      → append (map origin (authorize_one env principal d s).entries) rest
        ≡ append (map origin s.entries) (origin_of d ∷ rest)
  unfolding authorize_one
  authorize_one-origin principal d s rest =
      if_elim
        (λ (s' : Stage).
          append (map origin s'.entries) rest ≡ append (map origin s.entries) (origin_of d ∷ rest))
        (authorize env d principal).0
        (λ e. map-concat s.entries (entry_of d allow pending_checks) rest)
        (λ e. map-concat s.entries (entry_of d block (authorize env d principal).1) rest)

  authorize_all-origin :
      (principal : Identity) (ds : List Document) (s : Stage)
      → map origin (authorize_all env principal ds s).entries
        ≡ append (map origin s.entries) (map origin_of ds)
  unfolding authorize_all
  authorize_all-origin principal [] s = sym (append-nil (map origin s.entries))
  authorize_all-origin principal (d ∷ ds) s =
      authorize_all-origin principal ds (authorize_one env principal d s)
      ∙ authorize_one-origin principal d s (map origin_of ds)

  inspect_all-origin :
      (ds : List (ℕ × Document)) (s : Stage)
      → map origin (inspect_all env ds s).entries ≡ map origin s.entries
  unfolding inspect_all inspect_one
  inspect_all-origin [] s = refl
  inspect_all-origin (d ∷ ds) s =
      let result = inspect env d.1 in
      let entries = set_at d.0 (judged result.decision result.reason) s.entries in
      inspect_all-origin ds (inspect_one env d s)
      ∙ if_elim (λ (s' : Stage). map origin s'.entries ≡ map origin s.entries)
          (is_block result.decision)
          (λ e. set_at-origin (judged result.decision result.reason) d.0 s.entries (λ x. refl))
          (λ e. set_at-origin (judged result.decision result.reason) d.0 s.entries (λ x. refl))

  -- On every path the trace has one entry for each document of the request, in their order, which
  -- names the document's id, source, trust level, classification and owner.
  pub build_context-traces :
      (request_id : String) (now : ℕ) (principal : Identity) (documents : List Document)
      → map origin (build_context env request_id now principal documents).trace.entries
        ≡ map origin_of documents
  unfolding build_context
  build_context-traces request_id now principal documents =
      let authorized = authorize_all env principal documents start in
      let s = record start { entries = authorized.entries } in
      let safe = inspect_all env authorized.documents s in
      let first : map origin authorized.entries ≡ map origin_of documents =
        authorize_all-origin principal documents start in
      let second : map origin safe.entries ≡ map origin_of documents =
        inspect_all-origin authorized.documents s ∙ first in
      if_elim (λ (r : PipelineResult). map origin r.trace.entries ≡ map origin_of documents)
        (env.detects (combined env authorized.documents) && ltb 1 (length authorized.documents))
        (λ e.
          mark-origin (refused combined_injection) authorized.documents authorized.entries
            (λ x. refl)
          ∙ first)
        (λ e.
          if_elim (λ (r : PipelineResult). map origin r.trace.entries ≡ map origin_of documents)
            (env.detects (combined env safe.documents))
            (λ f.
              mark-origin (refused sanitized_injection) safe.documents safe.entries (λ x. refl)
              ∙ second)
            (λ f. mark-origin admitted safe.documents safe.entries (λ x. refl) ∙ second))
