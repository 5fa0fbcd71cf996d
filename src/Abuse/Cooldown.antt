-- ===== src/Abuse/Cooldown.antt =====
-- The cooldown of a key, from the charge that starts it to its end
-- (gateway/internal/abuse/tracker.go).
use sentrymesh.Base.{
  sub, ℕ, ◌+◌, ◌≤◌, ◌<◌, String, Bool, true, false, List, [], ◌∷◌, All, some, lookup, str_eq, ltb,
  ◌≡◌, refl, subst, sym, ◌∙◌, arith, eq_iff, Option-cases, Bool-cases, inl, inr, if_elim,
}
use mathlib.Core.Bool.{true≢false}
use sentrymesh.Abuse.{
  Repository, Config, State, Tracker, apply_decay, commit, current, cooled, starts, add, check,
  score,
}
use sentrymesh.Abuse.Commit.{lookup-commit_self, lookup-commit_ne}

-- The operations on keys that are in use.
pub data Op : Type 0 where
  adds : Bool → String → ℕ → ℕ → Op
  checks : Bool → String → ℕ → Op
  reads : Bool → String → ℕ → Op

abbrev pub time : Op → ℕ
time (adds up key points now) = now
time (checks up key now) = now
time (reads up key now) = now

-- The decay leaves the cooldown alone.
pub apply_decay-cooldown :
    (c : Config) (s : State) (now : ℕ) → (apply_decay c s now).cooldown_until ≡ s.cooldown_until
unfolding apply_decay
apply_decay-cooldown c s now = ground arith

module _ (r : Repository) where
  unfoldable pub step : Tracker r → Op → Tracker r
  step t (adds up key points now) = (add r up key points now t).1
  step t (checks up key now) = (check r up key now t).1
  step t (reads up key now) = (score r up key now t).1

  unfoldable pub run : Tracker r → List Op → Tracker r
  run t [] = t
  run t (o ∷ os) = run (step t o) os

  -- The key is in a cooldown until the time `u`.
  abbrev pub CoolsUntil : String → ℕ → Tracker r → Type 0
  CoolsUntil key u t = (s : State) × (lookup key t.states ≡ some s) × (s.cooldown_until ≡ u)

  commit-CoolsUntil :
      (up : Bool) (key k : String) (s : State) (u : ℕ) (t : Tracker r)
      → CoolsUntil key u t
      → (str_eq k key ≡ true → s.cooldown_until ≡ u)
      → CoolsUntil key u (commit r up k s t)
  commit-CoolsUntil up key k s u t h own = elim (Bool-cases (str_eq k key)) [
    | inl same ↦ (
      s,
      subst (λ x. lookup x (commit r up k s t).states ≡ some s) ((eq_iff k key).0 same)
          (lookup-commit_self r up k s t),
      own same,
    )
    | inr apart ↦ (h.0, lookup-commit_ne r up k key s t apart ∙ h.1, h.2)
  ]

  own :
      (key k : String) (s : State) (u now : ℕ) (t : Tracker r)
      → CoolsUntil key u t
      → lookup k t.states ≡ some s
      → str_eq k key ≡ true
      → (apply_decay t.config s now).cooldown_until ≡ u
  own key k s u now t h found same =
      ground (arith, apply_decay-cooldown t.config s now, eq_iff k key)

  own_current :
      (key k : String) (u now : ℕ) (t : Tracker r)
      → CoolsUntil key u t
      → str_eq k key ≡ true
      → (apply_decay t.config (current r k now t) now).cooldown_until ≡ u
  own_current key k u now t h same =
      ground (arith, apply_decay-cooldown t.config h.0 now, eq_iff k key)

  in_cooldown :
      (key k : String) (points u now : ℕ) (t : Tracker r)
      → now < u
      → CoolsUntil key u t
      → str_eq k key ≡ true
      → ¬ (starts r k points now t ≡ true)
  in_cooldown key k points u now t early h same = ground (arith, own_current key k u now t h same)

  -- In a cooldown, the state that an operation starts from is the one that the key has.
  step-CoolsUntil :
      (key : String) (u : ℕ) (t : Tracker r) (o : Op)
      → time o < u
      → CoolsUntil key u t
      → CoolsUntil key u (step t o)
  unfolding step add check score
  step-CoolsUntil key u t (adds up k points now) early h =
      if_elim (λ (x : (ℕ × ℕ × Bool) × Tracker r). CoolsUntil key u x.1) (starts r k points now t)
        (λ e.
          commit-CoolsUntil up key k (cooled r k points now t) u t h
            (λ same. absurd (in_cooldown key k points u now t early h same e)))
        (λ e. commit-CoolsUntil up key k _ u t h (own_current key k u now t h))
  step-CoolsUntil key u t (checks up k now) early h = elim (Option-cases (lookup k t.states)) [
    | inl absent ↦ rw (absent, step, check) h
    | inr found ↦
        rw (found.1, step, check)
          (let s : State = apply_decay t.config found.0 now in
            if_elim (λ (x : (Bool × ℕ × ℕ) × Tracker r). CoolsUntil key u x.1)
              (ltb now s.cooldown_until)
              (λ e. commit-CoolsUntil up key k s u t h (own key k found.0 u now t h found.1))
              (λ e.
                commit-CoolsUntil up key k (record s { cooldown_until = 0 }) u t h
                  (λ same. ground (arith, own key k found.0 u now t h found.1 same))))
  ]
  step-CoolsUntil key u t (reads up k now) early h = elim (Option-cases (lookup k t.states)) [
    | inl absent ↦ rw (absent, step, score) h
    | inr found ↦
        rw (found.1, step, score)
          (commit-CoolsUntil up key k _ u t h (own key k found.0 u now t h found.1))
  ]

  run-CoolsUntil :
      (key : String) (u : ℕ) (t : Tracker r) (os : List Op)
      → All (λ o. time o < u) os
      → CoolsUntil key u t
      → CoolsUntil key u (run t os)
  unfolding run
  run-CoolsUntil key u t [] early h = h
  run-CoolsUntil key u t (o ∷ os) early h =
      run-CoolsUntil key u (step t o) os early.1 (step-CoolsUntil key u t o early.0 h)

  -- In a cooldown a check is blocked, with the time that is left.
  pub check_blocks :
      (up : Bool) (key : String) (u now : ℕ) (t : Tracker r)
      → now < u
      → CoolsUntil key u t
      → ((check r up key now t).0.0 ≡ true) × ((check r up key now t).0.1 ≡ sub u now)
  unfolding check
  check_blocks up key u now t early h = ground (arith, apply_decay-cooldown t.config h.0 now)

  check_passes :
      (up : Bool) (key : String) (u now : ℕ) (t : Tracker r)
      → u ≤ now
      → CoolsUntil key u t
      → (check r up key now t).0.0 ≡ false
  unfolding check
  check_passes up key u now t late h = ground (arith, apply_decay-cooldown t.config h.0 now)

  enters :
      (up : Bool) (key : String) (points now : ℕ) (t : Tracker r)
      → (add r up key points now t).0.2 ≡ true
      → CoolsUntil key (now + t.config.cooldown) (add r up key points now t).1
  unfolding add
  enters up key points now t =
      if_elim
        (λ (x : (ℕ × ℕ × Bool) × Tracker r).
          x.0.2 ≡ true → CoolsUntil key (now + t.config.cooldown) x.1)
        (starts r key points now t)
        (λ e h. (
          cooled r key points now t,
          lookup-commit_self r up key (cooled r key points now t) t,
          refl,
        ))
        (λ e h. absurd (true≢false (sym h)))

  -- When a charge reports that a cooldown starts, then, whatever charges, checks and reads of any
  -- keys come before its end, a check of the key before the end is blocked with exactly the time
  -- that is left, and a first check at or after the end passes.
  pub cooldown_lasts :
      (up up' : Bool) (key : String) (points now later : ℕ) (t : Tracker r) (os : List Op)
      → (add r up key points now t).0.2 ≡ true
      → let end = now + t.config.cooldown in
        let t' = run (add r up key points now t).1 os in
        All (λ o. time o < end) os
        → (later < end
            → ((check r up' key later t').0.0 ≡ true)
              × ((check r up' key later t').0.1 ≡ sub end later))
          × (end ≤ later → (check r up' key later t').0.0 ≡ false)
  cooldown_lasts up up' key points now later t os h early =
      let end = now + t.config.cooldown in
      let t' = run (add r up key points now t).1 os in
      let held : CoolsUntil key end t' =
        run-CoolsUntil key end (add r up key points now t).1 os early
          (enters up key points now t h) in
      (
        (λ b. check_blocks up' key end later t' b held),
        λ a. check_passes up' key end later t' a held,
      )
