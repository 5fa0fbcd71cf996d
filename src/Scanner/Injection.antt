-- ===== src/Scanner/Injection.antt =====
-- gateway/internal/scanner/injection.go and injection_context.go: the scan for prompt injection, its
-- normalisation of the text, the encoded payloads, and the exception for quoted examples.
use Prim.Native.Char.{Char, code}
use Prim.Native.String.{[] as no_text, ◌∷◌ as char_cons}
use sentrymesh.Base.{
  ℕ, String, Bool, false, not, List, [], ◌∷◌, ◌++◌, any, is_empty, Option, none, some, str_eq, ◌==◌,
  if◌then◌else◌,
}
use sentrymesh.Scanner.{Engine, Severity, critical, high, medium}

pub record InjectionFinding : Type 0 where
  pub type : String
  pub severity : Severity
  pub confidence : ℕ
  pub matched : String

pub record InjectionPattern : Type 0 where
  pub name : String
  pub severity : Severity
  pub confidence : ℕ
  pub pattern : String

abbrev pub injection_patterns : List InjectionPattern
injection_patterns =
    record {
      name = "IGNORE_PREVIOUS_INSTRUCTIONS";
      severity = high;
      confidence = 95;
      pattern =
          "(?i)\\b(ignore|disregard|forget)\\b.{0,40}\\b(previous|prior|earlier|above)\\b.{0,30}\\b(instructions?|rules?|prompt)\\b";
    }
    ∷ record {
      name = "SYSTEM_PROMPT_EXTRACTION";
      severity = high;
      confidence = 90;
      pattern =
          "(?i)\\b(reveal|show|print|output|repeat|expose)\\b.{0,40}\\b(system prompt|developer message|hidden instructions?)\\b";
    }
    ∷ record {
      name = "ROLE_OVERRIDE";
      severity = medium;
      confidence = 75;
      pattern =
          "(?i)\\b(you are now|act as|pretend to be)\\b.{0,60}\\b(unrestricted|developer mode|jailbroken|no rules)\\b";
    }
    ∷ record {
      name = "DATA_EXFILTRATION";
      severity = critical;
      confidence = 95;
      pattern =
          "(?i)\\b(export|dump|retrieve|send|list)\\b.{0,60}\\b(all|every)\\b.{0,30}\\b(customers?|users?|records?|credentials?|secrets?)\\b";
    }
    ∷ record {
      name = "MULTILINGUAL_INSTRUCTION_OVERRIDE";
      severity = high;
      confidence = 90;
      pattern =
          "(?i)\\b(ignora|olvida)\\b.{0,50}\\b(instrucciones|reglas)\\b.{0,30}\\b(anteriores|previas)\\b";
    }
    ∷ record {
      name = "MULTILINGUAL_PROMPT_EXTRACTION";
      severity = high;
      confidence = 90;
      pattern =
          "(?i)\\b(revela|muestra|imprime)\\b.{0,50}\\b(prompt del sistema|instrucciones ocultas)\\b";
    }
    ∷ record {
      name = "MULTILINGUAL_INSTRUCTION_OVERRIDE";
      severity = high;
      confidence = 90;
      pattern =
          "(?i)\\b(ignore|oublie)\\b.{0,50}\\b(instructions|règles|regles)\\b.{0,30}\\b(précédentes|precedentes|antérieures|anterieures)\\b";
    }
    ∷ record {
      name = "MULTILINGUAL_PROMPT_EXTRACTION";
      severity = high;
      confidence = 90;
      pattern =
          "(?i)\\b(révèle|revele|montre|affiche)\\b.{0,50}\\b(prompt système|prompt systeme|instructions cachées|instructions cachees)\\b";
    }
    ∷ []

abbrev pub base64_candidate_pattern : String
base64_candidate_pattern = "\\b[A-Za-z0-9+/]{24,}={0,2}\\b"

abbrev pub quoted_text_pattern : String
quoted_text_pattern = "\"[^\"]*\"|'[^']*'"

abbrev pub benign_discussion_markers : List String
benign_discussion_markers =
    "article says" ∷ "article states" ∷ "common attack phrase" ∷ "attack phrase" ∷ "example of"
    ∷ "example:" ∷ "quoted phrase" ∷ "security training" ∷ "prompt injection example"
    ∷ "phrase means" ∷ []

-- The Cyrillic letters that look like Latin ones.
unfoldable pub homoglyph : Char → Char
homoglyph c =
    if code c == 1072
    then "a"
    else if code c == 1077
    then "e"
    else if code c == 1086
    then "o"
    else if code c == 1088
    then "p"
    else if code c == 1089
    then "c"
    else if code c == 1093
    then "x"
    else if code c == 1040
    then "A"
    else if code c == 1045
    then "E"
    else if code c == 1054
    then "O"
    else if code c == 1056
    then "P"
    else if code c == 1057
    then "C"
    else if code c == 1061
    then "X"
    else c

module _ (e : Engine) where
  -- The loop over the runes.
  unfoldable pub fold_runes : String → String
  fold_runes no_text = no_text
  fold_runes (char_cons c s) =
      if e.is_format c then fold_runes s else char_cons (homoglyph c) (fold_runes s)

  unfoldable pub normalize_injection_input : String → String
  normalize_injection_input input = e.squeeze (fold_runes input)

  -- What one candidate adds for a match, which is "" when there is none.
  abbrev pub finding_of : InjectionPattern → String → List InjectionFinding
  finding_of candidate match =
      if str_eq match ""
      then []
      else record {
        type = candidate.name;
        severity = candidate.severity;
        confidence = candidate.confidence;
        matched = match;
      }
        ∷ []

  unfoldable pub match_all : String → List InjectionPattern → List InjectionFinding
  match_all normalized [] = []
  match_all normalized (candidate ∷ candidates) =
      finding_of candidate (e.find candidate.pattern normalized) ++ match_all normalized candidates

  unfoldable pub scan_prompt_injection_raw : String → List InjectionFinding
  scan_prompt_injection_raw input = match_all (normalize_injection_input input) injection_patterns

  abbrev pub suspicious : String → Bool
  suspicious text = not (is_empty (scan_prompt_injection_raw text))

  abbrev pub hides_injection : Option String → Bool
  hides_injection none = false
  hides_injection (some decoded) = suspicious decoded

  abbrev pub encoded_finding : String → InjectionFinding
  encoded_finding candidate = record {
    type = "ENCODED_PROMPT_INJECTION";
    severity = high;
    confidence = 90;
    matched = candidate;
  }

  -- The first candidate that decodes to an injection is the only finding.
  unfoldable pub scan_candidates : List String → List InjectionFinding
  scan_candidates [] = []
  scan_candidates (candidate ∷ candidates) =
      if hides_injection (e.decode_base64 candidate)
      then encoded_finding candidate ∷ []
      else scan_candidates candidates

  unfoldable pub scan_encoded_injection : String → List InjectionFinding
  scan_encoded_injection input = scan_candidates (e.find_all base64_candidate_pattern input)

  unfoldable pub is_benign_injection_discussion : String → Bool
  is_benign_injection_discussion input =
      let quotes = e.find_all quoted_text_pattern input in
      if not (any (e.contains (e.to_lower input)) benign_discussion_markers)
      then false
      else if is_empty quotes
      then false
      else if not (any suspicious quotes)
      then false
      else not (suspicious (e.replace_all quoted_text_pattern input " "))

  unfoldable pub scan_prompt_injection : String → List InjectionFinding
  scan_prompt_injection input =
      if is_benign_injection_discussion input
      then []
      else scan_prompt_injection_raw input ++ scan_encoded_injection input
