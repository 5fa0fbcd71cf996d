-- ===== src/Abuse/Decay.antt =====
-- The decay of the abuse score over time (gateway/internal/abuse/tracker.go).
use native.Mathlib.Nat.{add-mul-div_right, div-mul-le_self, add-mul}
use sentrymesh.Base.{
  max_duration, sub, ℕ, zero, suc, ◌+◌, ◌-◌, ◌*◌, ◌/◌, ◌≤◌, ◌<◌, ◌≡◌, ◌⊎◌, refl, sym, ◌∙◌, ap,
  arith, inl, inr,
}
use sentrymesh.Abuse.{Config, State, apply_decay}

-- Whole steps taken out of a span leave the other whole steps of it.
div_sub_steps : (n q d : ℕ) → 0 < d → q * d ≤ n → (n - q * d) / d + q ≡ n / d
div_sub_steps n q d pos le =
    sym (add-mul-div_right (n - q * d) q pos) ∙ ap (λ k. k / d) (omega (arith, le))

no_whole : (q d n : ℕ) → n < d → q * d ≤ n → q ≡ 0
no_whole zero d n short le = refl
no_whole (suc q) d n short le = grind arith

no_steps : (n d : ℕ) → n < d → n / d ≡ 0
no_steps n d short = no_whole (n / d) d n short (div-mul-le_self n d)

-- The state after a number of whole steps.
abbrev after : Config → ℕ → State → State
after c k s = record s { score = s.score - k; last_updated = s.last_updated + k * c.decay_every }

after-after : (c : Config) (j k : ℕ) (s : State) → after c k (after c j s) ≡ after c (k + j) s
after-after c j k s =
    let total : k * c.decay_every + j * c.decay_every ≡ (k + j) * c.decay_every =
      sym (add-mul k j c.decay_every) in
    let scores : s.score - j - k ≡ s.score - (k + j) = omega arith in
    let times : s.last_updated + j * c.decay_every + k * c.decay_every
        ≡ s.last_updated + (k + j) * c.decay_every =
      omega (arith, total) in
    cc

steps_lem :
    (c : Config) (s : State) (now : ℕ)
    → 0 < c.decay_every
    → apply_decay c s now ≡ after c (sub now s.last_updated / c.decay_every) s
unfolding apply_decay
steps_lem c s now pos = ground (arith, no_steps (sub now s.last_updated) c.decay_every)

-- The whole steps up to a first time and those from the state of that time to a second one.
steps_split :
    (d l t₁ t₂ : ℕ)
    → 0 < d
    → l ≤ t₁
    → t₁ ≤ t₂
    → t₂ - l ≤ max_duration
    → sub t₂ (l + sub t₁ l / d * d) / d + sub t₁ l / d ≡ sub t₂ l / d
steps_split d l t₁ t₂ pos start later short =
    let q = (t₁ - l) / d in
    let whole : q * d ≤ t₁ - l = div-mul-le_self (t₁ - l) d in
    let first : sub t₁ l ≡ t₁ - l = omega (arith, start, later, short) in
    let second : sub t₂ (l + q * d) ≡ (t₂ - l) - q * d =
      omega (arith, start, later, short, whole) in
    let third : sub t₂ l ≡ t₂ - l = omega (arith, short) in
    rw (first, second, third) (div_sub_steps (t₂ - l) q d pos (omega (arith, whole, later)))

pos_cases : (d : ℕ) → (d ≡ 0) ⊎ (0 < d)
pos_cases zero = inl refl
pos_cases (suc d) = inr (omega arith)

twice :
    (c : Config) (s : State) (t₁ t₂ : ℕ)
    → 0 < c.decay_every
    → s.last_updated ≤ t₁
    → t₁ ≤ t₂
    → t₂ - s.last_updated ≤ max_duration
    → apply_decay c (apply_decay c s t₁) t₂ ≡ apply_decay c s t₂
twice c s t₁ t₂ pos start later short =
    ap (λ u. apply_decay c u t₂) (steps_lem c s t₁ pos)
    ∙ steps_lem c (after c (sub t₁ s.last_updated / c.decay_every) s) t₂ pos
    ∙ after-after c (sub t₁ s.last_updated / c.decay_every) _ s
    ∙ ap (λ k. after c k s) (steps_split c.decay_every s.last_updated t₁ t₂ pos start later short)
    ∙ sym (steps_lem c s t₂ pos)

-- Reading the score in between changes nothing of what a later time finds: the steps that are left
-- over are not lost, as long as the later time is at most the longest duration away.
pub apply_decay-apply_decay :
    (c : Config) (s : State) (t₁ t₂ : ℕ)
    → s.last_updated ≤ t₁
    → t₁ ≤ t₂
    → t₂ - s.last_updated ≤ max_duration
    → apply_decay c (apply_decay c s t₁) t₂ ≡ apply_decay c s t₂
unfolding apply_decay
apply_decay-apply_decay c s t₁ t₂ start later short = elim (pos_cases c.decay_every) [
  | inl none ↦ rw none refl
  | inr pos ↦ twice c s t₁ t₂ pos start later short
]
