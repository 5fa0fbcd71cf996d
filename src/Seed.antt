-- ===== src/Seed.antt =====
-- gateway/cmd/sentrymesh/seed.go: the API keys that the gateway creates when it starts. The time is the
-- same throughout, the database answers each statement or not by `Luck`, `len` counts the bytes of a
-- text, and `to_lower` is `strings.ToLower`.
pub mod Starting
mod Tests
use sentrymesh.Base.{
  ℕ, String, Bool, true, false, ◌||◌, List, [], ◌∷◌, Option, none, some, str_eq, ltb, if◌then◌else◌,
  Result, ok, err,
}
use sentrymesh.Identity.{Identity, analyst, sales, admin}
use sentrymesh.Auth.{Env, Error, Store, create, resolve}

pub record Seeded : Type 0 where
  pub name : String
  pub raw : String
  pub principal : Identity

abbrev pub seeded : String → String → String → String → String → List String → Seeded
seeded name raw user_id role team scopes = record {
  name = name;
  raw = raw;
  principal = record {
    user_id = user_id;
    role = role;
    team = team;
    scopes = scopes;
    key_id = 0;
    key_name = "";
  };
}

abbrev pub all_scopes : List String
all_scopes =
    "tools:evaluate" ∷ "approvals:write" ∷ "tools:execute" ∷ "audit:read" ∷ "keys:manage"
    ∷ "rag:inspect" ∷ "rag:context" ∷ "rag:chat" ∷ "evals:read" ∷ []

abbrev pub development_keys : List Seeded
development_keys =
    seeded "analyst-dev" "sm_analyst_dev" "u_analyst_1" analyst "risk"
      ("tools:evaluate" ∷ "rag:context" ∷ "rag:chat" ∷ [])
    ∷ seeded "sales-dev" "sm_sales_dev" "u_sales_1" sales "enterprise"
        ("tools:evaluate" ∷ "rag:context" ∷ [])
    ∷ seeded "admin-dev" "sm_admin_dev" "u_admin_1" admin "security" all_scopes
    ∷ []

-- Why the gateway does not start.
pub data Fatal : Type 0 where
  key_required : Fatal  -- "SENTRYMESH_ADMIN_KEY is required in production"
  key_too_short : Fatal  -- "SENTRYMESH_ADMIN_KEY must be at least 32 characters"
  development_key : Fatal  -- "development API keys cannot be used in production"
  not_created : Error → Fatal  -- "initialize production admin key: …"

-- Whether the database answers the two statements.
pub record Luck : Type 0 where
  pub first : Bool
  pub second : Bool

module _ (env : Env) where
  abbrev pub ensure_from :
      Luck → ℕ → Seeded → Store → Result Error Identity → Result Error (Unit {0}) × Store
  ensure_from luck now key s (ok _) = (ok tt, s)
  ensure_from luck now key s (err _) =
      create env luck.second now key.name key.raw key.principal none s

  unfoldable pub ensure_api_key : Luck → ℕ → Seeded → Store → Result Error (Unit {0}) × Store
  ensure_api_key luck now key s = ensure_from luck now key s (resolve env luck.first now key.raw s)

  -- A failure is only logged.
  unfoldable pub seed_development_keys : (String → Luck) → ℕ → List Seeded → Store → Store
  unfolding ensure_api_key
  seed_development_keys luck now [] s = s
  seed_development_keys luck now (key ∷ keys) s =
      seed_development_keys luck now keys (ensure_api_key (luck key.name) now key s).1

  abbrev pub started : Result Error (Unit {0}) × Store → Result Fatal (Unit {0}) × Store
  started (ok _, s) = (ok tt, s)
  started (err e, s) = (err (not_created e), s)

  abbrev pub is_development : String → Bool
  is_development raw =
      str_eq raw "sm_admin_dev" || (str_eq raw "sm_sales_dev" || str_eq raw "sm_analyst_dev")

  abbrev pub production_key : String → Seeded
  production_key raw = seeded "admin-prod" raw "u_admin_prod" admin "security" all_scopes

  -- On the value of SENTRYMESH_ADMIN_KEY.
  unfoldable pub seed_production_keys :
      (String → ℕ) → Luck → ℕ → String → Store → Result Fatal (Unit {0}) × Store
  unfolding ensure_api_key
  seed_production_keys len luck now variable s =
      let raw = env.trim variable in
      if str_eq raw ""
      then (err key_required, s)
      else if ltb (len raw) 32
      then (err key_too_short, s)
      else if is_development raw
      then (err development_key, s)
      else started (ensure_api_key luck now (production_key raw) s)

  -- On the values of SENTRYMESH_ENV and SENTRYMESH_ADMIN_KEY.
  unfoldable pub seed_api_keys :
      (String → String)
      → (String → ℕ)
      → (String → Luck)
      → ℕ
      → String
      → String
      → Store
      → Result Fatal (Unit {0}) × Store
  unfolding seed_development_keys seed_production_keys
  seed_api_keys to_lower len luck now mode variable s =
      if str_eq (to_lower (env.trim mode)) "production"
      then seed_production_keys len (luck "admin-prod") now variable s
      else (ok tt, seed_development_keys luck now development_keys s)
