-- ===== src/Rag/Context.antt =====
-- Which documents, with which texts, BuildContext admits (gateway/internal/rag/pipeline.go).
use Prim.Native.String.{◌++◌}
use mathlib.Core.List.{◌++◌ as append, append-nil, Memᴰ}
use sentrymesh.Base.{
  ℕ, suc, ◌≡◌, ◌⊎◌, refl, sym, ap, ◌∙◌, String, Bool, true, false, ◌&&◌, List, [], ◌∷◌, length, map,
  filter, ltb, if◌then◌else◌, if_elim, All, inl, inr, Bool-cases,
}
use sentrymesh.Identity.{Identity}
use sentrymesh.Rag.{
  Document, Scanner, is_block, authorize, inspect, combined_injection, sanitized_injection,
}
use sentrymesh.Rag.Pipeline.{
  PipelineResult, result_of, mark, refused, admitted, Stage, start, authorize_one, authorize_all,
  combined, inspect_one, inspect_all, build_context,
}

abbrev pub documents_of : List (ℕ × Document) → List Document
documents_of = map (λ d. d.1)

filter-filter : (p : Document → Bool) (ds : List Document) → filter p (filter p ds) ≡ filter p ds
filter-filter p [] = refl
filter-filter p (d ∷ ds) = elim (Bool-cases (p d)) [
  | inl is ↦ rw (is, is) (ap (λ r. d ∷ r) (filter-filter p ds))
  | inr isnt ↦ rw isnt (filter-filter p ds)
]

pick_context :
    (b c : Bool) (x y z : PipelineResult)
    → (if b then x else if c then y else z).context
      ≡ (if b then x.context else if c then y.context else z.context)
pick_context true c x y z = refl
pick_context false true x y z = refl
pick_context false false x y z = refl

module _ (env : Scanner) where
  -- The abstract view, without indexes and without the trace.
  abbrev pub may_see : Identity → Document → Bool
  may_see principal document = (authorize env document principal).0

  unfoldable pub texts : List Document → String
  texts [] = ""
  texts (d ∷ documents) = d.content ++ ("\n" ++ texts documents)

  unfoldable pub sift : List Document → List Document
  sift [] = []
  sift (d ∷ documents) =
      let result = inspect env d in
      if is_block result.decision
      then sift documents
      else record d { content = result.sanitized } ∷ sift documents

  unfoldable pub admit : List Document → List Document
  unfolding texts sift
  admit documents =
      if env.detects (texts documents) && ltb 1 (length documents)
      then []
      else if env.detects (texts (sift documents))
      then []
      else sift documents

  admit-clean : (ds : List Document) → (admit ds ≡ []) ⊎ (env.detects (texts (admit ds)) ≡ false)
  unfolding admit
  admit-clean ds =
      if_elim (λ ctx. (ctx ≡ []) ⊎ (env.detects (texts ctx) ≡ false))
        (env.detects (texts ds) && ltb 1 (length ds)) (λ e. inl refl)
        (λ e.
          if_elim (λ ctx. (ctx ≡ []) ⊎ (env.detects (texts ctx) ≡ false))
            (env.detects (texts (sift ds))) (λ f. inl refl) (λ f. inr f))

  documents_of-append :
      (a : List (ℕ × Document)) (i : ℕ) (d : Document) (rest : List Document)
      → append (documents_of (append a ((i, d) ∷ []))) rest ≡ append (documents_of a) (d ∷ rest)
  documents_of-append [] i d rest = refl
  documents_of-append (x ∷ a) i d rest = ap (λ y. x.1 ∷ y) (documents_of-append a i d rest)

  authorize_one-documents :
      (principal : Identity) (d : Document) (s : Stage) (rest : List Document)
      → append (documents_of (authorize_one env principal d s).documents) rest
        ≡ append (documents_of s.documents) (if may_see principal d then d ∷ rest else rest)
  unfolding authorize_one
  authorize_one-documents principal d s rest = elim (Bool-cases (may_see principal d)) [
    | inl is ↦ rw is (documents_of-append s.documents (length s.entries) d rest)
    | inr isnt ↦ rw isnt refl
  ]

  authorize_all-filter :
      (principal : Identity) (documents : List Document) (s : Stage)
      → documents_of (authorize_all env principal documents s).documents
        ≡ append (documents_of s.documents) (filter (may_see principal) documents)
  unfolding authorize_all
  authorize_all-filter principal [] s = sym (append-nil (documents_of s.documents))
  authorize_all-filter principal (d ∷ documents) s =
      authorize_all-filter principal documents (authorize_one env principal d s)
      ∙ authorize_one-documents principal d s (filter (may_see principal) documents)

  inspect_one-documents :
      (d : ℕ × Document) (s : Stage) (rest : List Document)
      → append (documents_of (inspect_one env d s).documents) rest
        ≡ append (documents_of s.documents) (
            if is_block (inspect env d.1).decision
            then rest
            else record d.1 { content = (inspect env d.1).sanitized } ∷ rest)
  unfolding inspect_one
  inspect_one-documents d s rest = elim (Bool-cases (is_block (inspect env d.1).decision)) [
    | inl is ↦ rw is refl
    | inr isnt ↦ rw isnt (
        documents_of-append s.documents d.0 (record d.1 { content = (inspect env d.1).sanitized })
          rest)
  ]

  inspect_all-sift :
      (documents : List (ℕ × Document)) (s : Stage)
      → documents_of (inspect_all env documents s).documents
        ≡ append (documents_of s.documents) (sift (documents_of documents))
  unfolding inspect_all sift
  inspect_all-sift [] s = sym (append-nil (documents_of s.documents))
  inspect_all-sift (d ∷ documents) s =
      inspect_all-sift documents (inspect_one env d s)
      ∙ inspect_one-documents d s (sift (documents_of documents))

  combined-texts :
      (documents : List (ℕ × Document)) → combined env documents ≡ texts (documents_of documents)
  unfolding combined texts
  combined-texts [] = refl
  combined-texts (d ∷ documents) = ap (λ s. d.1.content ++ ("\n" ++ s)) (combined-texts documents)

  length-documents_of : (ds : List (ℕ × Document)) → length (documents_of ds) ≡ length ds
  length-documents_of [] = refl
  length-documents_of (d ∷ ds) = ap suc (length-documents_of ds)

  -- The context is that of the abstract view, at the documents that the caller may see: the indexes
  -- and the trace decide nothing.
  pub build_context-refines :
      (request_id : String) (now : ℕ) (principal : Identity) (documents : List Document)
      → (build_context env request_id now principal documents).context
        ≡ admit (filter (may_see principal) documents)
  unfolding build_context admit
  build_context-refines request_id now principal documents =
      let seen_docs = filter (may_see principal) documents in
      let authorized = authorize_all env principal documents start in
      let safe =
        inspect_all env authorized.documents (record start { entries = authorized.entries }) in
      let seen : documents_of authorized.documents ≡ seen_docs =
        authorize_all-filter principal documents start in
      let kept : documents_of safe.documents ≡ sift seen_docs =
        inspect_all-sift authorized.documents (record start { entries = authorized.entries })
        ∙ ap sift seen in
      let raw : combined env authorized.documents ≡ texts seen_docs =
        combined-texts authorized.documents ∙ ap texts seen in
      let clean : combined env safe.documents ≡ texts (sift seen_docs) =
        combined-texts safe.documents ∙ ap texts kept in
      let size : length authorized.documents ≡ length seen_docs =
        sym (length-documents_of authorized.documents) ∙ ap length seen in
      rw (raw, size, clean)
        (pick_context (env.detects (texts seen_docs) && ltb 1 (length seen_docs))
            (env.detects (texts (sift seen_docs)))
            (result_of request_id now []
              (mark (refused combined_injection) authorized.documents authorized.entries))
            (result_of request_id now []
              (mark (refused sanitized_injection) safe.documents safe.entries))
            (result_of request_id now (documents_of safe.documents)
              (mark admitted safe.documents safe.entries))
          ∙ ap
              (λ ctx.
                if env.detects (texts seen_docs) && ltb 1 (length seen_docs)
                then []
                else if env.detects (texts (sift seen_docs))
                then []
                else ctx)
              kept)

  -- Documents that the caller may not see have no influence: taking them all out of the request
  -- leaves the context as it is.
  pub build_context-unseen :
      (request_id : String) (now : ℕ) (principal : Identity) (documents : List Document)
      → (build_context env request_id now principal documents).context
        ≡ (build_context env request_id now principal
            (filter (may_see principal) documents)).context
  build_context-unseen request_id now principal documents =
      build_context-refines request_id now principal documents
      ∙ ap admit (sym (filter-filter (may_see principal) documents))
      ∙ sym (build_context-refines request_id now principal (filter (may_see principal) documents))

  -- The scanner finds nothing in the text that the admitted documents make together, unless the
  -- context is empty.
  pub build_context-clean :
      (request_id : String) (now : ℕ) (principal : Identity) (documents : List Document)
      → let context = (build_context env request_id now principal documents).context in
        (context ≡ []) ⊎ (env.detects (texts context) ≡ false)
  build_context-clean request_id now principal documents =
      rw (build_context-refines request_id now principal documents)
        (admit-clean (filter (may_see principal) documents))

  -- Where an admitted document comes from.
  abbrev pub IsSourced : Identity → List Document → Document → Type 0
  IsSourced principal documents d' =
      (d : Document) × Memᴰ d documents
      × (may_see principal d ≡ true)
      × (is_block (inspect env d).decision ≡ false)
      × (d' ≡ record d { content = (inspect env d).sanitized })

  sift-IsSourced :
      (principal : Identity) (documents ds : List Document)
      → ((d : Document) → Memᴰ d ds → Memᴰ d documents)
      → All (IsSourced principal documents) (sift (filter (may_see principal) ds))
  unfolding sift
  sift-IsSourced principal documents [] sub = tt
  sift-IsSourced principal documents (d ∷ ds) sub =
      let rest = sift-IsSourced principal documents ds (λ x m. sub x (Memᴰ.tail m)) in
      elim (Bool-cases (may_see principal d)) [
        | inr isnt ↦ rw isnt rest
        | inl is ↦ elim (Bool-cases (is_block (inspect env d).decision)) [
          | inl blocked ↦ rw (is, sift, blocked) rest
          | inr kept ↦ rw (is, sift, kept) ((d, sub d (Memᴰ.head refl), is, kept, refl), rest)
        ]
      ]

  -- Every document of the context is one of the request that the caller may see and that the
  -- firewall does not block, with the text that the firewall leaves of it.
  pub build_context-IsSourced :
      (request_id : String) (now : ℕ) (principal : Identity) (documents : List Document)
      → All
          (IsSourced principal documents)
          (build_context env request_id now principal documents).context
  unfolding admit
  build_context-IsSourced request_id now principal documents =
      let ds = filter (may_see principal) documents in
      rw (build_context-refines request_id now principal documents) (
        if_elim (All (IsSourced principal documents)) (env.detects (texts ds) && ltb 1 (length ds))
          (λ e. tt)
          (λ e.
            if_elim (All (IsSourced principal documents)) (env.detects (texts (sift ds))) (λ f. tt)
              (λ f. sift-IsSourced principal documents documents (λ d m. m))))
