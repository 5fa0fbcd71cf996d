-- ===== src/Risk/Monotone.antt =====
-- How the verdict of `evaluate` moves with its input (gateway/internal/risk/engine.go).
use sentrymesh.Base.{ℕ, ◌≤◌, ◌<◌, ◌≡◌, ◌↔◌, ◌⊎◌, arith}
use sentrymesh.Risk.{
  Input, Severity, critical, high, medium, low, Action, block, review, allow_with_redaction, allow,
  total, grade, evaluate,
}

-- No count and no confidence of the first input is above that of the second.
abbrev pub IsBelow : Input → Input → Type 0
IsBelow a b =
    (a.secret_count ≤ b.secret_count)
    × (a.pii_count ≤ b.pii_count)
    × (a.injection_count ≤ b.injection_count)
    × (a.max_injection ≤ b.max_injection)

abbrev pub strictness : Action → ℕ
strictness allow = 0
strictness allow_with_redaction = 1
strictness review = 2
strictness block = 3

abbrev pub level : Severity → ℕ
level low = 0
level medium = 1
level high = 2
level critical = 3

total_mono : (a b : Input) → IsBelow a b → total a ≤ total b
unfolding total
total_mono a b h = ground arith

total-le : (a : Input) → total a ≤ 100
unfolding total
total-le a = ground arith

grade_mono :
    (x y : ℕ)
    → x ≤ y
    → (strictness (grade x).action ≤ strictness (grade y).action)
      × (level (grade x).severity ≤ level (grade y).severity)
unfolding grade
grade_mono x y h = ground arith

grade-score : (x : ℕ) → (grade x).score ≡ x
unfolding grade
grade-score x = ground arith

-- If no count and no confidence of `a` is above that of `b`, then neither the score nor the
-- strictness of the action nor the severity of `a` is above that of `b`.
pub evaluate_mono :
    (a b : Input)
    → IsBelow a b
    → ((evaluate a).score ≤ (evaluate b).score)
      × (strictness (evaluate a).action ≤ strictness (evaluate b).action)
      × (level (evaluate a).severity ≤ level (evaluate b).severity)
unfolding evaluate
evaluate_mono a b h =
    let below = total_mono a b h in
    let (action, severity) = grade_mono (total a) (total b) below in
    (omega (arith, grade-score (total a), grade-score (total b)), action, severity)

-- A request with a secret is blocked whatever else it holds, and so is one with an injection
-- finding of confidence 80 or more.
pub evaluate-block :
    (a : Input)
    → (0 < a.secret_count) ⊎ ((0 < a.injection_count) × (80 ≤ a.max_injection))
    → ((evaluate a).action ≡ block) × ((evaluate a).severity ≡ critical)
unfolding evaluate total grade
evaluate-block a h = ground arith

-- The score is at most 100, and the action is a function of the score alone: `block` from 80 on,
-- `review` from 60, `allow_with_redaction` from 30, `allow` below.
pub evaluate_thresholds :
    (a : Input)
    → ((evaluate a).score ≤ 100)
      × (((evaluate a).action ≡ block) ↔ (80 ≤ (evaluate a).score))
      × (((evaluate a).action ≡ review) ↔ ((60 ≤ (evaluate a).score) × ((evaluate a).score < 80)))
      × (((evaluate a).action ≡ allow_with_redaction)
          ↔ ((30 ≤ (evaluate a).score) × ((evaluate a).score < 60)))
      × (((evaluate a).action ≡ allow) ↔ ((evaluate a).score < 30))
unfolding evaluate grade
evaluate_thresholds a = ground (arith, total-le a)

-- Personal data alone is redacted, and never blocks or holds a request.
pub evaluate-pii_only :
    (a : Input)
    → a.secret_count ≡ 0
    → a.injection_count ≡ 0
    → ((evaluate a).action ≡ allow_with_redaction) ↔ (0 < a.pii_count)
unfolding evaluate total grade
evaluate-pii_only a s i = ground arith
