-- ===== src/Auth/History.antt =====
-- Sequences of calls that change the table of gateway/internal/auth/store.go, and the row of one key
-- through them.
use sentrymesh.Base.{
  ℕ, String, ◌≡◌, refl, ap, ◌∙◌, inl, inr, ◌⊎◌, arith, Bool, true, false, not, ◌&&◌, List, [], ◌∷◌,
  Option, some, if_elim, Result, Bool-cases, any,
}
use sentrymesh.Identity.{Identity}
use sentrymesh.Sql.{select_row}
use sentrymesh.Sql.Select.{changed, select_row-update_rows, select_row-append_old}
use sentrymesh.Auth.{
  Env, Key, Store, Error, has_hash, has_id, is_active, revoked_on, create, revoke_where, revoke,
  revoke_by_id,
}

-- A call of the store, with whether the database executes its statement, and the time.
pub data Op : Type 0 where
  creates : Bool → ℕ → String → String → Identity → Option ℕ → Op
  revokes : Bool → ℕ → String → Op
  revokes_id : Bool → ℕ → ℕ → Op

-- The row that Resolve reads.
abbrev pub at : String → Store → Option (Key String)
at h s = select_row (has_hash h) s.rows

module _ (env : Env) where
  unfoldable pub step : Store → Op → Store
  step s (creates up now name raw_key principal expires) =
      (create env up now name raw_key principal expires s).1
  step s (revokes up now raw_key) = (revoke env up now raw_key s).1
  step s (revokes_id up now id) = (revoke_by_id env up now id s).1

  unfoldable pub run : Store → List Op → Store
  run s [] = s
  run s (o ∷ os) = run (step s o) os

  -- A row is as it was, or as it was but for a revocation.
  abbrev pub Ages : Key String → Key String → Type 0
  Ages key later =
      (later ≡ key) ⊎ ((now : String) × (later ≡ revoked_on now key) × (is_active key ≡ true))

  at-revoke_where :
      (p : Key String → Bool) (up : Bool) (now : ℕ) (h : String) (s : Store) (key : Key String)
      → at h s ≡ some key
      → (later : Key String) × (at h (revoke_where env p up now s).1 ≡ some later) × Ages key later
  unfolding revoke_where
  at-revoke_where p false now h s key e = (key, e, inl refl)
  at-revoke_where p true now h s key e =
      let q = λ (k : Key String). p k && is_active k in
      let f = revoked_on (env.format now) in
      let eq = select_row-update_rows (has_hash h) q f s.rows (λ r. refl) in
      elim (Bool-cases (q key)) [
        | inl t ↦ (
          f key,
          eq ∙ ap (changed (has_hash h) q f) e ∙ rw t refl,
          inr (env.format now, refl, ground (arith, t)),
        )
        | inr n ↦ (key, eq ∙ ap (changed (has_hash h) q f) e ∙ rw n refl, inl refl)
      ]

  -- No call of the store replaces the row that a hash finds.
  pub at-step :
      (s : Store) (o : Op) (h : String) (key : Key String)
      → at h s ≡ some key
      → (later : Key String) × (at h (step s o) ≡ some later) × Ages key later
  unfolding step create revoke revoke_by_id
  at-step s (creates up now name raw_key principal expires) h key e =
      let P = λ (o : Result Error (Unit {0}) × Store).
        (later : Key String) × (at h o.1 ≡ some later) × Ages key later in
      if_elim P (up && not (any (has_hash (env.hash raw_key)) s.rows))
        (λ t. (key, select_row-append_old (has_hash h) s.rows _ key e, inl refl))
        (λ n. (key, e, inl refl))
  at-step s (revokes up now raw_key) h key e =
      at-revoke_where (has_hash (env.hash raw_key)) up now h s key e
  at-step s (revokes_id up now id) h key e = at-revoke_where (has_id id) up now h s key e
