-- ===== src/Auth/Calls.antt =====
-- Calls of the interface Repository of gateway/internal/auth/repository.go, served by either store.
use mathlib.Core.Option
use sentrymesh.Base.{ℕ, String, Bool, false, ◌≡◌, List, [], ◌∷◌, map, any, Option, value}
use sentrymesh.Identity.{Identity}
use sentrymesh.Auth
use sentrymesh.Auth.{
  Env, Key, Store, KeyRecord, Error, has_hash, has_id, is_active, revoked_on, new_key, record_of,
  same, found,
}
use sentrymesh.Auth.Postgres
use sentrymesh.Auth.Postgres.{PostgresStore}

-- A method of Repository with its arguments, whether the database answers, and the time.
pub data Call : Type 0 where
  creates : Bool → ℕ → String → String → Identity → Option ℕ → Call
  resolves : Bool → ℕ → String → Call
  revokes : Bool → ℕ → String → Call
  revokes_id : Bool → ℕ → ℕ → Call
  lists : Bool → Call
  finds_name : Bool → String → Call
  finds_id : Bool → ℕ → Call

-- What a caller sees of the results.
pub data Answer : Type 0 where
  changes : Option (Unit {0}) → Answer
  principal : Option Identity → Answer
  shows : Option (List KeyRecord) → Answer
  shows_one : Option KeyRecord → Answer

module _ (env : Env) (kept : ℕ → ℕ) where
  unfoldable pub serve : Store → Call → Answer × Store
  serve s (creates up now name raw_key who expires) =
      let (r, after) = Auth.create env up now name raw_key who expires s in
      (changes (value r), after)
  serve s (resolves up now raw_key) = (principal (value (Auth.resolve env up now raw_key s)), s)
  serve s (revokes up now raw_key) =
      let (r, after) = Auth.revoke env up now raw_key s in (changes (value r), after)
  serve s (revokes_id up now id) =
      let (r, after) = Auth.revoke_by_id env up now id s in (changes (value r), after)
  serve s (lists up) = (shows (value (Auth.list up s)), s)
  serve s (finds_name up name) = (shows_one (value (Auth.find_by_name up name s)), s)
  serve s (finds_id up id) = (shows_one (value (Auth.find_by_id up id s)), s)

  unfoldable pub serve_postgres : PostgresStore → Call → Answer × PostgresStore
  serve_postgres s (creates up now name raw_key who expires) =
      let (r, after) = Postgres.create env kept up now name raw_key who expires s in
      (changes (value r), after)
  serve_postgres s (resolves up now raw_key) =
      (principal (value (Postgres.resolve env kept up now raw_key s)), s)
  serve_postgres s (revokes up now raw_key) =
      let (r, after) = Postgres.revoke env kept up now raw_key s in (changes (value r), after)
  serve_postgres s (revokes_id up now id) =
      let (r, after) = Postgres.revoke_by_id env kept up now id s in (changes (value r), after)
  serve_postgres s (lists up) = (shows (value (Postgres.list env kept up s)), s)
  serve_postgres s (finds_name up name) =
      (shows_one (value (Postgres.find_by_name env kept up name s)), s)
  serve_postgres s (finds_id up id) = (shows_one (value (Postgres.find_by_id env kept up id s)), s)

  unfoldable pub answers : Store → List Call → List Answer
  answers s [] = []
  answers s (c ∷ cs) = (serve s c).0 ∷ answers (serve s c).1 cs

  unfoldable pub answers_postgres : PostgresStore → List Call → List Answer
  answers_postgres s [] = []
  answers_postgres s (c ∷ cs) = (serve_postgres s c).0 ∷ answers_postgres (serve_postgres s c).1 cs

  -- A row of PostgreSQL, with the texts of its times.
  abbrev pub texts : Key ℕ → Key String
  texts key = record {
    id = key.id;
    name = key.name;
    key_hash = key.key_hash;
    user_id = key.user_id;
    role = key.role;
    team = key.team;
    scopes = key.scopes;
    expires_at = Option.map env.format key.expires_at;
    revoked_at = Option.map env.format key.revoked_at;
    created_at = env.format key.created_at;
  }

  -- The SQLite table that shows what a PostgreSQL table holds.
  abbrev pub shown : PostgresStore → Store
  shown s = record { next_id = s.next_id; rows = map texts s.rows }

  -- No key is created twice, and an expiry has no more digits than a column keeps.
  abbrev pub IsPlain : PostgresStore → Call → Type 0
  IsPlain s (creates up now name raw_key who expires) =
      (any (has_hash (env.hash raw_key)) s.rows ≡ false) × (Option.map kept expires ≡ expires)
  IsPlain s _ = Unit

  abbrev pub ArePlain : PostgresStore → List Call → Type 0
  ArePlain s [] = Unit
  ArePlain s (c ∷ cs) = IsPlain s c × ArePlain (serve_postgres s c).1 cs
