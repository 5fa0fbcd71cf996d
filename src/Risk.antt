-- ===== src/Risk.antt =====
-- gateway/internal/risk/engine.go: the risk score of a request and the action it calls for.
pub mod Monotone
mod Tests
use sentrymesh.Base.{ℕ, ◌+◌, ltb, leb, if◌then◌else◌}

pub record Input : Type 0 where
  pub secret_count : ℕ
  pub pii_count : ℕ
  pub injection_count : ℕ
  pub max_injection : ℕ

pub data Severity : Type 0 where
  critical high medium low : Severity

pub data Action : Type 0 where
  block review allow_with_redaction allow : Action

pub record Decision : Type 0 where
  pub score : ℕ
  pub severity : Severity
  pub action : Action

-- The three additions, and the cap at 100.
unfoldable pub total : Input → ℕ
total input =
    let pii : ℕ = if ltb 0 input.pii_count then 30 else 0 in
    let secret : ℕ = if ltb 0 input.secret_count then 95 else 0 in
    let injection : ℕ = if ltb 0 input.injection_count then input.max_injection else 0 in
    let score = pii + secret + injection in if ltb 100 score then 100 else score

unfoldable pub grade : ℕ → Decision
grade score =
    if leb 80 score
    then record { score = score; severity = critical; action = block }
    else if leb 60 score
    then record { score = score; severity = high; action = review }
    else if leb 30 score
    then record { score = score; severity = medium; action = allow_with_redaction }
    else record { score = score; severity = low; action = allow }

unfoldable pub evaluate : Input → Decision
unfolding total grade
evaluate input = grade (total input)
