-- ===== src/RateLimit/Admission.antt =====
-- How many requests the limiter admits (gateway/internal/ratelimit/limiter.go).
use native.Mathlib.Nat.{add-mul, mul-le-mul_right}
use sentrymesh.Base.{
  ℕ, suc, ◌+◌, ◌-◌, ◌*◌, ◌≤◌, ◌≡◌, refl, sym, subst, arith, String, Bool, true, false, List, [],
  ◌∷◌, All, Option, none, some, lookup, insert, lookup-insert_self, lookup-insert_ne, str_eq,
  eq_iff, ltb, leb, if◌then◌else◌, if_elim, Bool-cases, inl, inr, sub,
}
use sentrymesh.RateLimit.{Bucket, Limiter, unit, bucket_at, refill, allow}

-- A call of Allow: its key and the time that it reads.
abbrev pub Call : Type 0
Call = String × ℕ

-- How many calls for the key are admitted.
unfoldable pub admitted : String → List Call → Limiter → ℕ
admitted key [] l = 0
admitted key (c ∷ calls) l =
    let rest = admitted key calls (allow c.0 c.1 l).1 in
    if str_eq c.0 key then (if (allow c.0 c.1 l).0.0 then suc rest else rest) else rest

-- The most that a bucket can have given by its last refill, of which it still has its tokens.
abbrev Pays : ℕ → ℕ → ℕ → ℕ → ℕ → Bucket → Type 0
Pays capacity rate from until n b =
    (from ≤ b.last_refill)
    × (b.last_refill ≤ until)
    × (n * unit + b.tokens ≤ capacity + (b.last_refill - from) * rate)

abbrev Owes : Limiter → ℕ → ℕ → ℕ → Option Bucket → Type 0
Owes l from until n none = n ≡ 0
Owes l from until n (some b) = Pays l.capacity l.refill_rate from until n b

gain :
    (from last now rate : ℕ)
    → from ≤ last
    → last ≤ now
    → (last - from) * rate + sub now last * rate ≤ (now - from) * rate
gain from last now rate a b =
    subst (λ x. x ≤ (now - from) * rate) (add-mul (last - from) (sub now last) rate)
      (mul-le-mul_right rate (omega (arith, a, b)))

refill-Pays :
    (l : Limiter) (from until now n : ℕ) (b : Bucket)
    → from ≤ now
    → now ≤ until
    → Pays l.capacity l.refill_rate from until n b
    → Pays l.capacity l.refill_rate from until n (refill l now b)
unfolding refill
refill-Pays l from until now n b start end h =
    if_elim (Pays l.capacity l.refill_rate from until n) (ltb 0 (sub now b.last_refill))
      (λ e. (start, end, ground (arith, gain from b.last_refill now l.refill_rate, h.0, h.2)))
      (λ e. h)

bucket_at-Pays :
    (l : Limiter) (key : String) (from until now n : ℕ)
    → from ≤ now
    → now ≤ until
    → Owes l from until n (lookup key l.buckets)
    → Pays l.capacity l.refill_rate from until n (bucket_at l key now)
unfolding bucket_at
bucket_at-Pays l key from until now n start end h = go (lookup key l.buckets) h
  where
    go :
        (o : Option Bucket)
        → Owes l from until n o
        → Pays l.capacity l.refill_rate from until n
            (elim o [ none ↦ record { tokens = l.capacity; last_refill = now } | some b ↦ b ])
    go none e = (start, end, rw e (omega arith))
    go (some b) p = p

stored :
    (k key : String) (b : Bucket) (l : Limiter)
    → k ≡ key
    → lookup key (insert k b l.buckets) ≡ some b
stored k key b l e =
    subst (λ x. lookup x (insert k b l.buckets) ≡ some b) e (lookup-insert_self k b l.buckets)

allow-Owes :
    (l : Limiter) (key k : String) (from until now n : ℕ)
    → from ≤ now
    → now ≤ until
    → Owes l from until n (lookup key l.buckets)
    → let r = allow k now l in
      Owes l from until
        (if str_eq k key then (if r.0.0 then suc n else n) else n)
        (lookup key r.1.buckets)
unfolding allow
allow-Owes l key k from until now n start end h =
    let b = refill l now (bucket_at l k now) in
    elim (Bool-cases (str_eq k key)) [
      | inr apart ↦ rw apart (
          if_elim (λ (x : (Bool × ℕ) × Limiter). Owes l from until n (lookup key x.1.buckets))
            (leb unit b.tokens)
            (λ e.
              subst (Owes l from until n)
                (sym
                  (lookup-insert_ne k key (record b { tokens = b.tokens - unit }) l.buckets apart))
                h)
            (λ e. subst (Owes l from until n) (sym (lookup-insert_ne k key b l.buckets apart)) h))
      | inl same ↦
          let e : k ≡ key = (eq_iff k key).0 same in
          let paid : Pays l.capacity l.refill_rate from until n b =
            refill-Pays l from until now n (bucket_at l k now) start end (
              bucket_at-Pays l k from until now n start end
                (subst (λ x. Owes l from until n (lookup x l.buckets)) (sym e) h)) in
          rw same (
            if_elim
              (λ (x : (Bool × ℕ) × Limiter).
                Owes l from until (if x.0.0 then suc n else n) (lookup key x.1.buckets))
              (leb unit b.tokens)
              (λ full.
                subst (Owes l from until (suc n))
                  (sym (stored k key (record b { tokens = b.tokens - unit }) l e))
                  (paid.0, paid.1, ground (arith, paid.2)))
              (λ low. subst (Owes l from until n) (sym (stored k key b l e)) paid))
    ]

allow-capacity :
    (k : String) (now : ℕ) (l : Limiter)
    → ((allow k now l).1.capacity ≡ l.capacity) × ((allow k now l).1.refill_rate ≡ l.refill_rate)
unfolding allow
allow-capacity k now l = ground arith

Owes-kept :
    (l l' : Limiter) (from until n : ℕ) (o : Option Bucket)
    → l'.capacity ≡ l.capacity
    → l'.refill_rate ≡ l.refill_rate
    → Owes l from until n o
    → Owes l' from until n o
Owes-kept l l' from until n none c r e = e
Owes-kept l l' from until n (some b) c r h = (h.0, h.1, rw (c, r) h.2)

Owes-bound :
    (l : Limiter) (from until n : ℕ) (o : Option Bucket)
    → Owes l from until n o
    → n * unit ≤ l.capacity + (until - from) * l.refill_rate
Owes-bound l from until n none e = rw e (omega arith)
Owes-bound l from until n (some b) h =
    let later : b.last_refill - from ≤ until - from = omega (arith, h.0, h.1) in
    omega (arith, h.2, mul-le-mul_right l.refill_rate later)

-- The count in the order of the calls, from that of the calls before.
after_call :
    (b c : Bool) (n rest : ℕ)
    → (if b then (if c then suc n else n) else n) + rest
      ≡ n + (if b then (if c then suc rest else rest) else rest)
after_call true true n rest = omega arith
after_call true false n rest = refl
after_call false c n rest = refl

run-bound :
    (calls : List Call) (l : Limiter) (key : String) (from until n : ℕ)
    → All (λ c. (from ≤ c.1) × (c.1 ≤ until)) calls
    → Owes l from until n (lookup key l.buckets)
    → (n + admitted key calls l) * unit ≤ l.capacity + (until - from) * l.refill_rate
unfolding admitted
run-bound [] l key from until n times h =
    omega (arith, Owes-bound l from until n (lookup key l.buckets) h)
run-bound (c ∷ calls) l key from until n times h =
    let r = allow c.0 c.1 l in
    let rest = admitted key calls r.1 in
    let m = if str_eq c.0 key then (if r.0.0 then suc n else n) else n in
    let same = allow-capacity c.0 c.1 l in
    let ih : (m + rest) * unit ≤ r.1.capacity + (until - from) * r.1.refill_rate =
      run-bound calls r.1 key from until m times.1 (
        Owes-kept l r.1 from until m (lookup key r.1.buckets) same.0 same.1
          (allow-Owes l key c.0 from until c.1 n times.0.0 times.0.1 h)) in
    subst (λ k. k * unit ≤ l.capacity + (until - from) * l.refill_rate)
      (after_call (str_eq c.0 key) r.0.0 n rest)
      (subst (λ x. (m + rest) * unit ≤ x) (rw (same.0, same.1) refl) ih)

-- Between two times, the limiter admits of one key at most what its bucket holds when full and what
-- is refilled in between, whatever calls for this and other keys are made in that span and in
-- whatever order their times are read. The key has no bucket before.
pub admitted-bound :
    (calls : List Call) (l : Limiter) (key : String) (from until : ℕ)
    → All (λ c. (from ≤ c.1) × (c.1 ≤ until)) calls
    → lookup key l.buckets ≡ none
    → admitted key calls l * unit ≤ l.capacity + (until - from) * l.refill_rate
admitted-bound calls l key from until times fresh =
    omega (arith, run-bound calls l key from until 0 times (rw fresh refl))
