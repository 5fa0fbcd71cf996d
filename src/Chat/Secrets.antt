-- ===== src/Chat/Secrets.antt =====
-- A secret in a message of a request (gateway/internal/api/chat.go, gateway/internal/scanner/secrets.go).
use Prim.Native.String.{◌++◌ as ◌⊹◌}
use text.Mathlib.TextLemmas.{nil-append, append_assoc}
use sentrymesh.Base.{
  String, ◌≡◌, ◌≢◌, refl, sym, ap, ◌∙◌, subst, true, List, [], ◌∷◌, ◌++◌, All, map, filter, some,
  Bool-cases, inl, inr,
}
use sentrymesh.Scanner.{Engine, SecretPattern, secret_patterns, secret_finding, scan_secrets}
use sentrymesh.Provider.{Message}
use sentrymesh.Chat.{ChatRequest, Env, with_default, prompt_text, chat_handler}
use sentrymesh.Chat.Input.{IsRefused, secret_prompt-IsRefused}

-- A pattern of secrets is found wherever it stands in a text: none of them is anchored.
abbrev pub FindsInside : Engine → SecretPattern → Type 0
FindsInside e p =
    (before text after : String)
    → e.matches p.pattern text ≡ true
    → e.matches p.pattern (before ⊹ (text ⊹ after)) ≡ true

-- It needs no white space at the ends of a text, which is all that `strings.TrimSpace` removes.
abbrev pub FindsTrimmed : Env → SecretPattern → Type 0
FindsTrimmed env p =
    (text : String)
    → env.engine.matches p.pattern text ≡ true
    → env.engine.matches p.pattern (env.trim text) ≡ true

-- The prompt has the text of each message inside.
inside_prompt :
    (before : List Message) (m : Message) (after : List Message)
    → (front : String) × (back : String) × (prompt_text (before ++ m ∷ after)
        ≡ front ⊹ (m.content ⊹ back))
unfolding prompt_text
inside_prompt [] m after = ("", "\n" ⊹ prompt_text after, sym (nil-append _))
inside_prompt (first ∷ before) m after =
    let (front, back, e) = inside_prompt before m after in
    (
      first.content ⊹ ("\n" ⊹ front),
      back,
      ap (λ t. first.content ⊹ ("\n" ⊹ t)) e
          ∙ ap (λ t. first.content ⊹ t) (sym (append_assoc "\n" front (m.content ⊹ back)))
          ∙ sym (append_assoc first.content ("\n" ⊹ front) (m.content ⊹ back)),
    )

-- A text in which no pattern is found, next to one in which the same patterns are found or more.
found_less :
    (e : Engine) (small large : String) (ps : List SecretPattern)
    → All (λ p. e.matches p.pattern small ≡ true → e.matches p.pattern large ≡ true) ps
    → map secret_finding (filter (λ p. e.matches p.pattern large) ps) ≡ []
    → map secret_finding (filter (λ p. e.matches p.pattern small) ps) ≡ []
found_less e small large [] more none_found = refl
found_less e small large (p ∷ ps) more none_found = elim (Bool-cases (e.matches p.pattern small)) [
  | inl found ↦ let there = more.0 found in cc (rw there at none_found)
  | inr missed ↦ elim (Bool-cases (e.matches p.pattern large)) [
    | inl there ↦ cc (rw there at none_found)
    | inr absent ↦ rw missed (found_less e small large ps more.1 (rw absent at none_found))
  ]
]

module _ (env : Env) where
  still_found :
      (front text back : String) (ps : List SecretPattern)
      → All (FindsInside env.engine) ps
      → All (FindsTrimmed env) ps
      → All
          (λ p.
            env.engine.matches p.pattern text ≡ true
            → env.engine.matches p.pattern (env.trim (front ⊹ (text ⊹ back))) ≡ true)
          ps
  still_found front text back [] inside trimmed = tt
  still_found front text back (p ∷ ps) inside trimmed = (
    λ h. trimmed.0 (front ⊹ (text ⊹ back)) (inside.0 front text back h),
    still_found front text back ps inside.1 trimmed.1,
  )

  prompt_keeps_secret :
      (before : List Message) (m : Message) (after : List Message)
      → All (FindsInside env.engine) secret_patterns
      → All (FindsTrimmed env) secret_patterns
      → scan_secrets env.engine m.content ≢ []
      → scan_secrets env.engine (env.trim (prompt_text (before ++ m ∷ after))) ≢ []
  unfolding scan_secrets
  prompt_keeps_secret before m after inside trimmed found none_found =
      let (front, back, e) = inside_prompt before m after in
      let whole = front ⊹ (m.content ⊹ back) in
      found (
        found_less env.engine m.content (env.trim whole) secret_patterns
          (still_found front m.content back secret_patterns inside trimmed)
          (ap (λ s. scan_secrets env.engine (env.trim s)) (sym e) ∙ none_found))

  -- A request is refused when ScanSecrets finds a secret in any one of its messages, whatever else
  -- the request holds. The patterns of secrets are found wherever they stand in a text, and in what
  -- `strings.TrimSpace` leaves of it.
  pub chat_handler-secret :
      (req : ChatRequest) (before : List Message) (m : Message) (after : List Message)
      → All (FindsInside env.engine) secret_patterns
      → All (FindsTrimmed env) secret_patterns
      → req.messages ≡ before ++ m ∷ after
      → scan_secrets env.engine m.content ≢ []
      → IsRefused env (with_default req) (chat_handler env (some req))
  chat_handler-secret req before m after inside trimmed split found =
      secret_prompt-IsRefused env req (nonempty before m after split) (
        subst (λ ms. scan_secrets env.engine (env.trim (prompt_text ms)) ≢ []) (sym split)
          (prompt_keeps_secret before m after inside trimmed found))
    where
      nonempty :
          (before : List Message) (m : Message) (after : List Message)
          → req.messages ≡ before ++ m ∷ after
          → req.messages ≢ []
      nonempty [] m after e h = cc
      nonempty (x ∷ before) m after e h = cc
