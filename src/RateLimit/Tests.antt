-- ===== src/RateLimit/Tests.antt =====
-- Runs of the limiter, and its theorem at a concrete run.
use sentrymesh.Base.{◌*◌, ◌+◌, ◌-◌, ◌≤◌, ◌≡◌, refl, arith, List, [], ◌∷◌, none, lookup, insert}
use sentrymesh.RateLimit.{Limiter, unit, allow, bucket_at, refill, retry_after}
use sentrymesh.RateLimit.Admission.{Call, admitted, admitted-bound}

-- Two tokens, and one more each second.
abbrev fresh : Limiter
fresh = record { capacity = 2 * unit; refill_rate = 1; buckets = [] }

abbrev burst : List Call
burst = ("a", 5) ∷ ("a", 6) ∷ ("b", 6) ∷ ("a", 7) ∷ []

burst_lem : admitted "a" burst fresh ≡ 2
unfolding admitted allow bucket_at refill retry_after lookup insert
burst_lem = refl

absent : lookup "a" fresh.buckets ≡ none
unfolding lookup
absent = refl

admitted-bound_example :
    admitted "a" burst fresh * unit ≤ fresh.capacity + (7 - 5) * fresh.refill_rate
admitted-bound_example =
    admitted-bound burst fresh "a" 5 7
      (
        (omega arith, omega arith),
        (
          (omega arith, omega arith),
          ((omega arith, omega arith), ((omega arith, omega arith), tt)),
        ),
      )
      absent
