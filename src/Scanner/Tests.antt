-- ===== src/Scanner/Tests.antt =====
-- The scans with a concrete engine, and their theorems at concrete texts.
use sentrymesh.Base.{
  ◌≡◌, ◌≢◌, refl, true, false, [], ◌∷◌, none, some, str_eq, is_empty, if◌then◌else◌, ◌==◌, ◌&&◌,
}
use Prim.Native.Char.{code}
use sentrymesh.Scanner.{Engine, email_pattern}
use sentrymesh.Scanner.Injection.{
  homoglyph, fold_runes, normalize_injection_input, match_all, suspicious,
  scan_prompt_injection_raw, scan_candidates, scan_encoded_injection,
  is_benign_injection_discussion, scan_prompt_injection, base64_candidate_pattern,
}
use sentrymesh.Scanner.Evasion.{
  Disguise, same, keeps, swaps, puts, looks_like_p, scan_prompt_injection-disguise,
}

-- An engine whose patterns find the word "pwn" (in base64 "cHdu"), and e-mail addresses the text "@".
-- U+200B, a zero width space, is the only format character.
abbrev pub toy : Engine
toy = record {
  matches = λ p s. if str_eq p email_pattern then str_eq s "@" else str_eq s "AKIA";
  find = λ p s. if str_eq s "pwn" then "pwn" else "";
  find_all =
      λ p s. if str_eq p base64_candidate_pattern && str_eq s "cHdu" then "cHdu" ∷ [] else [];
  replace_all = λ p s r. r;
  decode_base64 = λ s. if str_eq s "cHdu" then some "pwn" else none;
  to_lower = λ s. s;
  contains = λ s part. false;
  squeeze = λ s. s;
  is_format = λ c. code c == 8203;
}

encoded_lem : is_empty (scan_prompt_injection toy "cHdu") ≡ false
unfolding scan_prompt_injection scan_prompt_injection_raw scan_encoded_injection scan_candidates
    is_benign_injection_discussion normalize_injection_input fold_runes homoglyph match_all
encoded_lem = refl

-- "pwn" with a zero width space in it and a Cyrillic p.
disguised : Disguise toy "pwn" "рw\u{200b}n"
disguised =
    swaps "p" "р" "wn" "w\u{200b}n" looks_like_p refl refl
      (keeps "w" "n" "\u{200b}n" (puts "\u{200b}" "n" "n" refl (keeps "n" "" "" same)))

plain_found : suspicious toy "pwn" ≡ true
unfolding scan_prompt_injection_raw normalize_injection_input fold_runes homoglyph match_all
plain_found = refl

not_a_discussion : is_benign_injection_discussion toy "рw\u{200b}n" ≡ false
unfolding is_benign_injection_discussion
not_a_discussion = refl

scan_prompt_injection-disguise_example : scan_prompt_injection toy "рw\u{200b}n" ≢ []
scan_prompt_injection-disguise_example =
    scan_prompt_injection-disguise toy disguised plain_found not_a_discussion
