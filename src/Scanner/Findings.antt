-- ===== src/Scanner/Findings.antt =====
-- What the scans of gateway/internal/scanner report.
use sentrymesh.Base.{
  All-append, ◌≤◌, ◌≡◌, ◌↔◌, ◌⊎◌, inl, inr, refl, arith, String, true, false, List, [], ◌∷◌, All,
  str_eq, if_elim, Bool-cases,
}
use mathlib.Core.List.{append-eq-nil_iff}
use sentrymesh.Scanner.{Engine, secret_patterns, scan_secrets, scan_output}
use sentrymesh.Scanner.Injection.{
  InjectionFinding, InjectionPattern, injection_patterns, finding_of, match_all,
  scan_prompt_injection_raw, scan_candidates, scan_encoded_injection,
  is_benign_injection_discussion, scan_prompt_injection, hides_injection,
}

-- A finding's confidence, as the risk engine weighs it.
abbrev pub IsWeighty : InjectionFinding → Type 0
IsWeighty f = (75 ≤ f.confidence) × (f.confidence ≤ 95)

module _ (e : Engine) where
  match_all-IsWeighty :
      (text : String) (ps : List InjectionPattern)
      → All (λ p. (75 ≤ p.confidence) × (p.confidence ≤ 95)) ps
      → All IsWeighty (match_all e text ps)
  unfolding match_all
  match_all-IsWeighty text [] h = tt
  match_all-IsWeighty text (p ∷ ps) h =
      All-append IsWeighty (finding_of e p (e.find p.pattern text)) (match_all e text ps)
        (if_elim (All IsWeighty) (str_eq (e.find p.pattern text) "") (λ k. tt) (λ k. (h.0, tt)))
        (match_all-IsWeighty text ps h.1)

  scan_candidates-IsWeighty : (cs : List String) → All IsWeighty (scan_candidates e cs)
  unfolding scan_candidates
  scan_candidates-IsWeighty [] = tt
  scan_candidates-IsWeighty (c ∷ cs) =
      if_elim (All IsWeighty) (hides_injection e (e.decode_base64 c)) (λ h. (omega arith, tt))
        (λ h. scan_candidates-IsWeighty cs)

  -- Every finding has a confidence from 75 to 95, whatever the text is.
  pub scan_prompt_injection-IsWeighty :
      (input : String) → All IsWeighty (scan_prompt_injection e input)
  unfolding scan_prompt_injection scan_prompt_injection_raw scan_encoded_injection
  scan_prompt_injection-IsWeighty input =
      if_elim (All IsWeighty) (is_benign_injection_discussion e input) (λ h. tt)
        (λ h.
          All-append IsWeighty (scan_prompt_injection_raw e input) (scan_encoded_injection e input)
            (match_all-IsWeighty _ injection_patterns (omega arith)) (scan_candidates-IsWeighty _))

  -- The scan finds nothing exactly when neither the patterns nor the encoded candidates do, or the
  -- text is taken for the discussion of a quoted example, encoded candidates or not.
  pub scan_prompt_injection-nil_iff :
      (input : String)
      → (scan_prompt_injection e input ≡ []) ↔ (
          (is_benign_injection_discussion e input ≡ true)
          ⊎ ((scan_prompt_injection_raw e input ≡ []) × (scan_encoded_injection e input ≡ [])))
  unfolding scan_prompt_injection
  scan_prompt_injection-nil_iff input = elim (Bool-cases (is_benign_injection_discussion e input)) [
    | inl benign ↦ rw benign ((λ h. inl refl), λ h. refl)
    | inr odd ↦ rw odd (
      (λ h. inr (append-eq-nil_iff.0 h)),
      λ h. elim h [ inl c ↦ cc | inr k ↦ append-eq-nil_iff.1 k ],
    )
  ]

  -- An output is safe exactly when no secret pattern matches it.
  pub scan_output-safe_iff :
      (text : String)
      → ((scan_output e text).safe ≡ true)
        ↔ All (λ p. e.matches p.pattern text ≡ false) secret_patterns
  unfolding scan_output scan_secrets
  scan_output-safe_iff text = ground arith
