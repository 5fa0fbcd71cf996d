-- ===== src/Risk/Tests.antt =====
-- Runs of `evaluate` and the theorems at concrete inputs.
use sentrymesh.Base.{◌≤◌, ◌<◌, ◌≡◌, ◌↔◌, refl, arith}
use sentrymesh.Risk.{Input, high, review, allow_with_redaction, evaluate}
use sentrymesh.Risk.Monotone.{strictness, level, evaluate_mono, evaluate-pii_only}

abbrev role_override : Input
role_override = record { secret_count = 0; pii_count = 0; injection_count = 1; max_injection = 75 }

abbrev override_with_email : Input
override_with_email = record {
  secret_count = 0;
  pii_count = 1;
  injection_count = 1;
  max_injection = 95;
}

abbrev email_only : Input
email_only = record { secret_count = 0; pii_count = 2; injection_count = 0; max_injection = 0 }

role_override_reviewed :
    evaluate role_override ≡ record { score = 75; severity = high; action = review }
unfolding evaluate
role_override_reviewed = refl

evaluate_mono_example :
    ((evaluate role_override).score ≤ (evaluate override_with_email).score)
    × (strictness (evaluate role_override).action
        ≤ strictness (evaluate override_with_email).action)
    × (level (evaluate role_override).severity ≤ level (evaluate override_with_email).severity)
evaluate_mono_example = evaluate_mono role_override override_with_email (omega arith)

evaluate-pii_only_example :
    ((evaluate email_only).action ≡ allow_with_redaction) ↔ (0 < email_only.pii_count)
evaluate-pii_only_example = evaluate-pii_only email_only refl refl
