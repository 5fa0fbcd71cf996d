-- ===== src/Auth.antt =====
-- gateway/internal/auth/store.go: the table of API keys and its statements. Every operation takes
-- `up`, whether the database executes its statement. A database error and a violated UNIQUE
-- constraint are both the driver's error. SHA-256 with its hexadecimal text, `strings.TrimSpace` and
-- the RFC 3339 format of times are the parameter `Env`.
pub mod Scopes
pub mod History
pub mod Revocation
pub mod RoundTrip
pub mod Guard
pub mod Keys
pub mod Lockout
mod Tests
pub mod Postgres
pub mod Calls
pub mod Agreement
use sentrymesh.Base.{
  ℕ, suc, String, Bool, true, false, not, ◌&&◌, List, [], ◌∷◌, ◌++◌, map, any, Option, none, some,
  ◌==◌, str_eq, ltb, if◌then◌else◌, is_none, Result, ok, err,
}
use mathlib.Core.Option
use sentrymesh.Identity.{Identity}
use sentrymesh.Sql.{select_row, update_rows, affected, order_desc}
use sentrymesh.Auth.Scopes.{join, split_scopes}

pub record Env : Type 0 where
  pub hash : String → String
  pub trim : String → String
  pub format : ℕ → String
  pub parse : String → Option ℕ

-- A row of `api_keys`, whose times are of the column type `T`.
pub record Key (T : Type 0) : Type 0 where
  pub id : ℕ
  pub name : String
  pub key_hash : String
  pub user_id : String
  pub role : String
  pub team : String
  pub scopes : String
  pub expires_at : Option T
  pub revoked_at : Option T
  pub created_at : T

-- The table, and the next value of its AUTOINCREMENT key.
pub record Store : Type 0 where
  pub next_id : ℕ
  pub rows : List (Key String)

pub data Error : Type 0 where
  database : Error  -- what the driver returns
  invalid_key : Error  -- "invalid API key"
  revoked : Error  -- "API key revoked"
  invalid_expiry : Error  -- "invalid expiry"
  expired : Error  -- "API key expired"
  not_active : Error  -- "API key not found or already revoked"
  not_found : Error  -- sql.ErrNoRows, "API key not found"

-- What the listings show of a row: all but the hash.
pub record KeyRecord : Type 0 where
  pub id : ℕ
  pub name : String
  pub user_id : String
  pub role : String
  pub team : String
  pub scopes : String
  pub expires_at : Option String
  pub revoked_at : Option String
  pub created_at : String

unfoldable pub new_store : Store
new_store = record { next_id = 1; rows = [] }

-- The row of an INSERT.
abbrev pub new_key : {T : Type 0} → ℕ → String → String → Identity → Option T → T → Key T
new_key id name key_hash principal expires now = record {
  id = id;
  name = name;
  key_hash = key_hash;
  user_id = principal.user_id;
  role = principal.role;
  team = principal.team;
  scopes = join principal.scopes;
  expires_at = expires;
  revoked_at = none;
  created_at = now;
}

abbrev pub has_hash : {T : Type 0} → String → Key T → Bool
has_hash h key = str_eq key.key_hash h

abbrev pub has_id : {T : Type 0} → ℕ → Key T → Bool
has_id id key = key.id == id

-- revoked_at IS NULL
abbrev pub is_active : {T : Type 0} → Key T → Bool
is_active key = is_none key.revoked_at

abbrev pub revoked_on : {T : Type 0} → T → Key T → Key T
revoked_on now key = record key { revoked_at = some now }

abbrev pub record_of : {T : Type 0} → (T → String) → Key T → KeyRecord
record_of format key = record {
  id = key.id;
  name = key.name;
  user_id = key.user_id;
  role = key.role;
  team = key.team;
  scopes = key.scopes;
  expires_at = Option.map format key.expires_at;
  revoked_at = Option.map format key.revoked_at;
  created_at = format key.created_at;
}

abbrev pub same : String → String
same text = text

module _ (env : Env) where
  unfoldable pub create :
      Bool → ℕ → String → String → Identity → Option ℕ → Store → Result Error (Unit {0}) × Store
  create up now name raw_key principal expires s =
      if up && not (any (has_hash (env.hash raw_key)) s.rows)
      then (
        ok tt,
        record {
          next_id = suc s.next_id;
          rows =
              s.rows
              ++ new_key s.next_id name (env.hash raw_key) principal (Option.map env.format expires)
                  (env.format now)
                ∷ [];
        },
      )
      else (err database, s)

  abbrev pub identity_of : {T : Type 0} → Key T → Identity
  identity_of key = record {
    user_id = key.user_id;
    role = key.role;
    team = key.team;
    scopes = split_scopes env.trim key.scopes;
    key_id = key.id;
    key_name = key.name;
  }

  -- `time.Now().After(expires)`
  abbrev pub unless_expired : {T : Type 0} → ℕ → ℕ → Key T → Result Error Identity
  unless_expired now expires key = if ltb expires now then err expired else ok (identity_of key)

  abbrev pub check_expiry : ℕ → Key String → Option String → Result Error Identity
  check_expiry now key none = ok (identity_of key)
  check_expiry now key (some text) = elim (env.parse text) [
    | none ↦ err invalid_expiry
    | some expires ↦ unless_expired now expires key
  ]

  -- What Resolve does with the row.
  unfoldable pub admit : ℕ → Key String → Result Error Identity
  admit now key = if not (is_active key) then err revoked else check_expiry now key key.expires_at

  unfoldable pub resolve : Bool → ℕ → String → Store → Result Error Identity
  unfolding admit
  resolve up now raw_key s =
      if up
      then elim (select_row (has_hash (env.hash raw_key)) s.rows) [
        | none ↦ err invalid_key
        | some key ↦ admit now key
      ]
      else err invalid_key

  -- UPDATE api_keys SET revoked_at = ? WHERE … AND revoked_at IS NULL
  unfoldable pub revoke_where :
      (Key String → Bool) → Bool → ℕ → Store → Result Error (Unit {0}) × Store
  revoke_where p up now s =
      if up
      then (
        (if affected (λ key. p key && is_active key) s.rows == 0 then err not_active else ok tt),
        record s {
          rows = update_rows (λ key. p key && is_active key) (revoked_on (env.format now)) s.rows;
        },
      )
      else (err database, s)

  unfoldable pub revoke : Bool → ℕ → String → Store → Result Error (Unit {0}) × Store
  unfolding revoke_where
  revoke up now raw_key s = revoke_where (has_hash (env.hash raw_key)) up now s

  unfoldable pub revoke_by_id : Bool → ℕ → ℕ → Store → Result Error (Unit {0}) × Store
  unfolding revoke_where
  revoke_by_id up now id s = revoke_where (has_id id) up now s

unfoldable pub list : Bool → Store → Result Error (List KeyRecord)
list up s =
    if up then ok (map (record_of same) (order_desc (λ key. key.id) s.rows)) else err database

abbrev pub found : Option (Key String) → Result Error KeyRecord
found none = err not_found
found (some key) = ok (record_of same key)

-- WHERE name = ? ORDER BY id DESC LIMIT 1
unfoldable pub find_by_name : Bool → String → Store → Result Error KeyRecord
find_by_name up name s =
    if up
    then found (select_row (λ key. str_eq key.name name) (order_desc (λ key. key.id) s.rows))
    else err database

unfoldable pub find_by_id : Bool → ℕ → Store → Result Error KeyRecord
find_by_id up id s = if up then found (select_row (has_id id) s.rows) else err database
