-- ===== src/Seed/Starting.antt =====
-- What a start of the gateway in production (gateway/cmd/sentrymesh/seed.go) leaves behind.
use sentrymesh.Base.{
  ℕ, String, ◌≡◌, refl, ap, ◌∙◌, Bool, true, false, any, Option, none, some, str_eq, ltb, if_elim,
  Result, ok, err, value,
}
use sentrymesh.Identity.{Identity}
use sentrymesh.Sql.Select.{select_row-any}
use sentrymesh.Auth.{Env, Key, Error, Store, database, has_hash, is_active, create}
use sentrymesh.Auth.History.{at}
use sentrymesh.Auth.Revocation.{resolve-revoked}
use sentrymesh.Seed.{
  Seeded, Luck, Fatal, not_created, key_required, key_too_short, development_key, ensure_from,
  ensure_api_key, started, is_development, production_key, seed_production_keys,
}

module _ (env : Env) where
  create-taken :
      (up : Bool) (now : ℕ) (name raw : String) (principal : Identity) (expires : Option ℕ)
      (s : Store)
      → any (has_hash (env.hash raw)) s.rows ≡ true
      → create env up now name raw principal expires s ≡ (err database, s)
  unfolding create
  create-taken true now name raw principal expires s h = rw h refl
  create-taken false now name raw principal expires s h = refl

  ensure_from-refused :
      (luck : Luck) (now : ℕ) (key : Seeded) (s : Store) (r : Result Error Identity)
      → value r ≡ none
      → ensure_from env luck now key s r
        ≡ create env luck.second now key.name key.raw key.principal none s
  ensure_from-refused luck now key s (ok principal) h = cc
  ensure_from-refused luck now key s (err e) h = refl

  ensure_api_key-revoked :
      (luck : Luck) (now : ℕ) (seed : Seeded) (s : Store) (key : Key String)
      → at (env.hash seed.raw) s ≡ some key
      → is_active key ≡ false
      → ensure_api_key env luck now seed s ≡ (err database, s)
  unfolding ensure_api_key
  ensure_api_key-revoked luck now seed s key there dead =
      ensure_from-refused luck now seed s _
        (resolve-revoked env luck.first now seed.raw s key there dead)
      ∙ create-taken luck.second now seed.name seed.raw seed.principal none s
          (select_row-any (has_hash (env.hash seed.raw)) s.rows key there)

  -- A start in production with an admin key that was revoked ends: the key does not resolve, and it
  -- cannot be created a second time. The store stays as it is.
  pub seed_production_keys-revoked :
      (len : String → ℕ) (luck : Luck) (now : ℕ) (variable : String) (s : Store) (key : Key String)
      → at (env.hash (env.trim variable)) s ≡ some key
      → is_active key ≡ false
      → (e : Fatal) × (seed_production_keys env len luck now variable s ≡ (err e, s))
  unfolding seed_production_keys
  seed_production_keys-revoked len luck now variable s key there dead =
      let raw = env.trim variable in
      let P = λ (o : Result Fatal (Unit {0}) × Store). (e : Fatal) × (o ≡ (err e, s)) in
      if_elim P (str_eq raw "") (λ h. (key_required, refl))
        (λ h.
          if_elim P (ltb (len raw) 32) (λ h. (key_too_short, refl))
            (λ h.
              if_elim P (is_development env raw) (λ h. (development_key, refl))
                (λ h. (
                  not_created database,
                  ap (started env)
                      (ensure_api_key-revoked luck now (production_key env raw) s key there dead),
                ))))
