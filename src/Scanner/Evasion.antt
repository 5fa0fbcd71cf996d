-- ===== src/Scanner/Evasion.antt =====
-- Disguised texts: what the normalisation of gateway/internal/scanner/injection.go sees through.
use Prim.Native.Char.{Char}
use Prim.Native.String.{[] as no_text, ◌∷◌ as char_cons}
use sentrymesh.Base.{String, true, false, if_elim, if◌then◌else◌, ◌≡◌, ◌≢◌, refl, sym, ap, ◌∙◌, []}
use mathlib.Core.List.{append-eq-nil_iff}
use sentrymesh.Scanner.{Engine}
use sentrymesh.Scanner.Injection.{
  homoglyph, match_all, injection_patterns, fold_runes, normalize_injection_input,
  scan_prompt_injection_raw, suspicious, is_benign_injection_discussion, scan_prompt_injection,
}

-- A letter, and a Cyrillic letter that is written like it.
pub data Lookalike : Char → Char → Type 0 where
  looks_like_a : Lookalike "a" "а"
  looks_like_e : Lookalike "e" "е"
  looks_like_o : Lookalike "o" "о"
  looks_like_p : Lookalike "p" "р"
  looks_like_c : Lookalike "c" "с"
  looks_like_x : Lookalike "x" "х"
  looks_like_capital_a : Lookalike "A" "А"
  looks_like_capital_e : Lookalike "E" "Е"
  looks_like_capital_o : Lookalike "O" "О"
  looks_like_capital_p : Lookalike "P" "Р"
  looks_like_capital_c : Lookalike "C" "С"
  looks_like_capital_x : Lookalike "X" "Х"

homoglyph-Lookalike : {c d : Char} → Lookalike c d → homoglyph d ≡ homoglyph c
unfolding homoglyph
homoglyph-Lookalike looks_like_a = refl
homoglyph-Lookalike looks_like_e = refl
homoglyph-Lookalike looks_like_o = refl
homoglyph-Lookalike looks_like_p = refl
homoglyph-Lookalike looks_like_c = refl
homoglyph-Lookalike looks_like_x = refl
homoglyph-Lookalike looks_like_capital_a = refl
homoglyph-Lookalike looks_like_capital_e = refl
homoglyph-Lookalike looks_like_capital_o = refl
homoglyph-Lookalike looks_like_capital_p = refl
homoglyph-Lookalike looks_like_capital_c = refl
homoglyph-Lookalike looks_like_capital_x = refl

module _ (e : Engine) where
  -- A text and a disguise of it: format characters put in anywhere, and letters replaced by Cyrillic
  -- letters that are written alike.
  pub data Disguise : String → String → Type 0 where
    same : Disguise no_text no_text
    keeps : (c : Char) (s t : String) → Disguise s t → Disguise (char_cons c s) (char_cons c t)
    swaps :
        (c d : Char) (s t : String)
        → Lookalike c d
        → e.is_format c ≡ false
        → e.is_format d ≡ false
        → Disguise s t
        → Disguise (char_cons c s) (char_cons d t)
    puts :
        (c : Char) (s t : String) → e.is_format c ≡ true → Disguise s t → Disguise s (char_cons c t)

  fold_runes-disguise : {s t : String} → Disguise s t → fold_runes e t ≡ fold_runes e s
  unfolding fold_runes
  fold_runes-disguise same = refl
  fold_runes-disguise (keeps c s t h) =
      if_elim
        (λ (r : String).
          (if e.is_format c then fold_runes e t else char_cons (homoglyph c) (fold_runes e t)) ≡ r)
        (e.is_format c) (λ f. rw f (fold_runes-disguise h))
        (λ f. rw f (ap (char_cons (homoglyph c)) (fold_runes-disguise h)))
  fold_runes-disguise (swaps c d s t alike fc fd h) =
      rw (fc, fd, homoglyph-Lookalike alike) (ap (char_cons (homoglyph c)) (fold_runes-disguise h))
  fold_runes-disguise (puts c s t f h) = rw f (fold_runes-disguise h)

  pub scan_prompt_injection_raw-disguise :
      {s t : String} → Disguise s t → scan_prompt_injection_raw e t ≡ scan_prompt_injection_raw e s
  unfolding scan_prompt_injection_raw normalize_injection_input
  scan_prompt_injection_raw-disguise h =
      ap (λ r. match_all e (e.squeeze r) injection_patterns) (fold_runes-disguise h)

  -- An injection that the patterns find in a text is found in the text with format characters put in
  -- and Latin letters replaced by any of the twelve Cyrillic ones that are written alike, none of
  -- which is a format character, unless the disguised text is taken for the discussion of a quoted
  -- example.
  pub scan_prompt_injection-disguise :
      {s t : String}
      → Disguise s t
      → suspicious e s ≡ true
      → is_benign_injection_discussion e t ≡ false
      → scan_prompt_injection e t ≢ []
  unfolding scan_prompt_injection
  scan_prompt_injection-disguise {s} {t} h found odd nothing =
      let raw : scan_prompt_injection_raw e t ≡ [] = (append-eq-nil_iff.0 (rw odd at nothing)).0 in
      let none_found : scan_prompt_injection_raw e s ≡ [] =
        sym (scan_prompt_injection_raw-disguise h) ∙ raw in
      cc
