-- ===== src/RateLimit.antt =====
-- gateway/internal/ratelimit/limiter.go: a token bucket for each API key. Go counts tokens in
-- float64; here a token is 10^9 units and the arithmetic is exact, so that a rate in tokens per
-- second is one in units per nanosecond. A rate is a whole number of tokens per second.
pub mod Admission
mod Tests
use sentrymesh.Base.{
  ℕ, ◌+◌, ◌-◌, ◌*◌, ◌/◌, ◌^◌, min, max, String, Bool, true, false, [], Option, none, some,
  StringMap, lookup, insert, ltb, leb, ◌==◌, if◌then◌else◌, sub, second, millisecond,
}

pub record Bucket : Type 0 where
  pub tokens : ℕ
  pub last_refill : ℕ

pub record Limiter : Type 0 where
  pub capacity : ℕ
  pub refill_rate : ℕ
  pub buckets : StringMap Bucket

abbrev pub unit : ℕ
unit = 10 ^ 9

unfoldable pub new_limiter : ℕ → ℕ → Limiter
new_limiter capacity refill_rate = record {
  capacity = capacity * unit;
  refill_rate = refill_rate;
  buckets = [];
}

unfoldable pub bucket_at : Limiter → String → ℕ → Bucket
bucket_at l key now = elim (lookup key l.buckets) [
  | none ↦ record { tokens = l.capacity; last_refill = now }
  | some b ↦ b
]

unfoldable pub refill : Limiter → ℕ → Bucket → Bucket
refill l now b =
    let elapsed = sub now b.last_refill in
    if ltb 0 elapsed
    then record { tokens = min (b.tokens + elapsed * l.refill_rate) l.capacity; last_refill = now }
    else b

-- The time until a token is there.
unfoldable pub retry_after : Limiter → Bucket → ℕ
retry_after l b =
    if l.refill_rate == 0 then second else max ((unit - b.tokens) / l.refill_rate) millisecond

unfoldable pub allow : String → ℕ → Limiter → (Bool × ℕ) × Limiter
unfolding bucket_at refill retry_after
allow key now l =
    let b = refill l now (bucket_at l key now) in
    let taken = record b { tokens = b.tokens - unit } in
    if leb unit b.tokens
    then ((true, 0), record l { buckets = insert key taken l.buckets })
    else ((false, retry_after l b), record l { buckets = insert key b l.buckets })
