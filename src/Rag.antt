-- ===== src/Rag.antt =====
-- gateway/internal/rag: who may see a document (authorization.go), what the retrieval firewall makes
-- of its text (firewall.go), and the context and trace that BuildContext (pipeline.go) builds of a
-- list of documents. The scanner of gateway/internal/scanner stands here as the interface
-- `Scanner`, by whether it finds anything in a text; the theorems assume nothing of it. Go's text
-- functions are fields too.
pub mod Pipeline
pub mod Context
pub mod Trace
mod Tests
use sentrymesh.Base.{
  ℕ, String, Bool, true, false, not, ◌&&◌, List, [], ◌∷◌, Option, none, some, any, is_empty, str_eq,
  filter, if◌then◌else◌,
}
use sentrymesh.Identity.{Identity, admin, has_role}

pub data TrustLevel : Type 0 where
  trusted_internal untrusted_external : TrustLevel
  unlisted : String → TrustLevel

pub record Document : Type 0 where
  pub id : String
  pub source : String
  pub owner_team : String
  pub classification : String
  pub trust_level : TrustLevel
  pub content : String
  pub allowed_roles : List String

pub data Decision : Type 0 where
  allow filtered block : Decision

pub data Reason : Type 0 where
  restricted : Reason  -- "restricted document requires admin role"
  role_not_listed : Reason  -- "caller role is not authorized for document"
  cross_team : Reason  -- "cross-team document access denied"
  access_permitted : Reason  -- "document access permitted"
  pending_checks : Reason  -- "pending retrieval security checks"
  passed : Reason  -- "document passed retrieval security checks"
  untrusted_injection : Reason  -- "untrusted document contains prompt injection"
  lines_removed : Reason
  -- "trusted document contained suspicious instructions and was filtered"
  combined_injection : Reason  -- "combined retrieval context contains prompt injection"
  sanitized_injection : Reason  -- "sanitized retrieval context contains prompt injection"

-- `strings.EqualFold`, `strings.TrimSpace`, `strings.Split` and `strings.Join` at "\n", and the
-- test `len(scanner.ScanPromptInjection(s)) > 0`.
pub record Scanner : Type 0 where
  pub equal_fold : String → String → Bool
  pub trim : String → String
  pub lines : String → List String
  pub unlines : List String → String
  pub detects : String → Bool

abbrev pub is_untrusted : TrustLevel → Bool
is_untrusted untrusted_external = true
is_untrusted _ = false

abbrev pub is_block : Decision → Bool
is_block block = true
is_block _ = false

-- `Result`, without the findings.
pub record Inspection : Type 0 where
  pub document_id : String
  pub decision : Decision
  pub sanitized : String
  pub reason : Reason

abbrev pub inspection : Document → Decision → String → Reason → Inspection
inspection document decision sanitized reason = record {
  document_id = document.id;
  decision = decision;
  sanitized = sanitized;
  reason = reason;
}

module _ (env : Scanner) where
  -- The checks of `Authorize`, in its order.
  unfoldable pub authorize : Document → Identity → Bool × Reason
  authorize document principal =
      if env.equal_fold document.classification "RESTRICTED" && not (has_role principal admin)
      then (false, restricted)
      else if not (is_empty document.allowed_roles)
          && not (any (λ role. env.equal_fold role principal.role) document.allowed_roles)
      then (false, role_not_listed)
      else if not (str_eq document.owner_team "")
          && (not (str_eq principal.team document.owner_team) && not (has_role principal admin))
      then (false, cross_team)
      else (true, access_permitted)

  unfoldable pub remove_suspicious_lines : String → String
  remove_suspicious_lines content =
      env.trim (env.unlines (filter (λ line. not (env.detects line)) (env.lines content)))

  unfoldable pub inspect : Document → Inspection
  unfolding remove_suspicious_lines
  inspect document =
      let content = env.trim document.content in
      if not (env.detects content)
      then inspection document allow content passed
      else if is_untrusted document.trust_level
      then inspection document block "" untrusted_injection
      else inspection document filtered (remove_suspicious_lines content) lines_removed
