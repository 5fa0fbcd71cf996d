-- ===== src/Scanner.antt =====
-- gateway/internal/scanner: the secret, personal-data and output scans (secrets.go, pii.go,
-- output.go); Scanner/Injection has the scan for prompt injection. Go's regexp, base64 and text
-- functions are the parameter `Engine`, of which nothing is assumed but what a theorem names. A
-- pattern is its text, as the source writes it.
pub mod Injection
pub mod Evasion
pub mod Findings
mod Tests
use Prim.Native.Char.{Char}
use sentrymesh.Base.{
  ℕ, String, Bool, true, false, not, List, [], ◌∷◌, ◌++◌, map, filter, is_empty, Option,
  if◌then◌else◌,
}

-- `MatchString`, `FindString` (with "" for no match), `FindAllString` and `ReplaceAllString` of a
-- pattern on a text, `DecodeString`, `ToLower`, `Contains` (text, then part), `Join(Fields(s), " ")`
-- and whether a rune is in the class Cf.
pub record Engine : Type 0 where
  pub matches : String → String → Bool
  pub find : String → String → String
  pub find_all : String → String → List String
  pub replace_all : String → String → String → String
  pub decode_base64 : String → Option String
  pub to_lower : String → String
  pub contains : String → String → Bool
  pub squeeze : String → String
  pub is_format : Char → Bool

pub data Severity : Type 0 where
  critical high medium : Severity

-- A finding's action is "BLOCK" for a secret and "REDACT" for personal data, always.
pub record Finding : Type 0 where
  pub type : String
  pub severity : Severity

pub record PiiFinding : Type 0 where
  pub type : String
  pub severity : Severity
  pub redacted_as : String

pub record SecretPattern : Type 0 where
  pub name : String
  pub severity : Severity
  pub pattern : String

abbrev pub secret_patterns : List SecretPattern
secret_patterns =
    record { name = "AWS_ACCESS_KEY"; severity = critical; pattern = "AKIA[0-9A-Z]{16}" }
    ∷ record { name = "GITHUB_TOKEN"; severity = critical; pattern = "gh[pousr]_[A-Za-z0-9_]{20,}" }
    ∷ record {
      name = "PRIVATE_KEY";
      severity = critical;
      pattern = "-----BEGIN (RSA |EC |OPENSSH )?PRIVATE KEY-----";
    }
    ∷ []

abbrev pub email_pattern : String
email_pattern = "[A-Za-z0-9._%+\\-]+@[A-Za-z0-9.\\-]+\\.[A-Za-z]{2,}"

abbrev pub phone_pattern : String
phone_pattern = "\\b(?:\\+?1[-.\\s]?)?(?:\\(?\\d{3}\\)?[-.\\s]?)\\d{3}[-.\\s]?\\d{4}\\b"

abbrev pub ssn_pattern : String
ssn_pattern = "\\b\\d{3}-\\d{2}-\\d{4}\\b"

pub record OutputScan : Type 0 where
  pub safe : Bool
  pub redacted : String
  pub pii_findings : List PiiFinding
  pub secret_findings : List Finding

abbrev pub secret_finding : SecretPattern → Finding
secret_finding p = record { type = p.name; severity = p.severity }

module _ (e : Engine) where
  unfoldable pub scan_secrets : String → List Finding
  scan_secrets input = map secret_finding (filter (λ p. e.matches p.pattern input) secret_patterns)

  -- One pattern of ScanAndRedactPII, on the text and the findings so far.
  unfoldable pub redact_one :
      String → PiiFinding → String × List PiiFinding → String × List PiiFinding
  redact_one pattern finding (text, findings) =
      if e.matches pattern text
      then (e.replace_all pattern text finding.redacted_as, findings ++ finding ∷ [])
      else (text, findings)

  abbrev pub email_address : PiiFinding
  email_address = record {
    type = "EMAIL_ADDRESS";
    severity = medium;
    redacted_as = "<EMAIL_REDACTED>";
  }

  abbrev pub phone_number : PiiFinding
  phone_number = record {
    type = "PHONE_NUMBER";
    severity = medium;
    redacted_as = "<PHONE_REDACTED>";
  }

  abbrev pub ssn : PiiFinding
  ssn = record { type = "SSN"; severity = high; redacted_as = "<SSN_REDACTED>" }

  unfoldable pub scan_and_redact_pii : String → String × List PiiFinding
  unfolding redact_one
  scan_and_redact_pii input =
      redact_one ssn_pattern ssn
        (redact_one phone_pattern phone_number (redact_one email_pattern email_address (input, [])))

  unfoldable pub scan_output : String → OutputScan
  unfolding scan_secrets scan_and_redact_pii
  scan_output input = record {
    safe = is_empty (scan_secrets input);
    redacted = (scan_and_redact_pii input).0;
    pii_findings = (scan_and_redact_pii input).1;
    secret_findings = scan_secrets input;
  }
