-- ===== src/Auth/Postgres.antt =====
-- gateway/internal/auth/postgres.go: the same table on PostgreSQL, whose time columns hold times.
-- A TIMESTAMPTZ keeps of a time what the parameter `kept` makes of it; NOW() is such a time already.
-- An INSERT that the UNIQUE constraint refuses has drawn a value from the sequence all the same.
use mathlib.Core.Option
use sentrymesh.Base.{
  ℕ, suc, String, Bool, true, false, not, ◌&&◌, List, [], ◌∷◌, ◌++◌, map, any, Option, none, some,
  ◌==◌, str_eq, if◌then◌else◌, Result, ok, err,
}
use sentrymesh.Identity.{Identity}
use sentrymesh.Sql.{select_row, update_rows, affected, order_desc}
use sentrymesh.Auth.{
  Env, Key, KeyRecord, Error, database, invalid_key, revoked, not_active, not_found, has_hash,
  has_id, is_active, revoked_on, new_key, record_of, identity_of, unless_expired,
}

pub record PostgresStore : Type 0 where
  pub next_id : ℕ
  pub rows : List (Key ℕ)

module _ (env : Env) (kept : ℕ → ℕ) where
  unfoldable pub create :
      Bool
      → ℕ
      → String
      → String
      → Identity
      → Option ℕ
      → PostgresStore
      → Result Error (Unit {0}) × PostgresStore
  create up now name raw_key principal expires s =
      if not up
      then (err database, s)
      else if any (has_hash (env.hash raw_key)) s.rows
      then (err database, record s { next_id = suc s.next_id })
      else (
        ok tt,
        record {
          next_id = suc s.next_id;
          rows =
              s.rows
              ++ new_key s.next_id name (env.hash raw_key) principal (Option.map kept expires) now
                ∷ [];
        },
      )

  abbrev pub check_expiry : ℕ → Key ℕ → Option ℕ → Result Error Identity
  check_expiry now key none = ok (identity_of env key)
  check_expiry now key (some expires) = unless_expired env now expires key

  unfoldable pub admit : ℕ → Key ℕ → Result Error Identity
  admit now key = if not (is_active key) then err revoked else check_expiry now key key.expires_at

  unfoldable pub resolve : Bool → ℕ → String → PostgresStore → Result Error Identity
  unfolding admit
  resolve up now raw_key s =
      if up
      then elim (select_row (has_hash (env.hash raw_key)) s.rows) [
        | none ↦ err invalid_key
        | some key ↦ admit now key
      ]
      else err database

  -- UPDATE api_keys SET revoked_at = NOW() WHERE … AND revoked_at IS NULL
  unfoldable pub revoke_where :
      (Key ℕ → Bool) → Bool → ℕ → PostgresStore → Result Error (Unit {0}) × PostgresStore
  revoke_where p up now s =
      if up
      then (
        (if affected (λ key. p key && is_active key) s.rows == 0 then err not_active else ok tt),
        record s { rows = update_rows (λ key. p key && is_active key) (revoked_on now) s.rows },
      )
      else (err database, s)

  unfoldable pub revoke :
      Bool → ℕ → String → PostgresStore → Result Error (Unit {0}) × PostgresStore
  unfolding revoke_where
  revoke up now raw_key s = revoke_where (has_hash (env.hash raw_key)) up now s

  unfoldable pub revoke_by_id :
      Bool → ℕ → ℕ → PostgresStore → Result Error (Unit {0}) × PostgresStore
  unfolding revoke_where
  revoke_by_id up now id s = revoke_where (has_id id) up now s

  unfoldable pub list : Bool → PostgresStore → Result Error (List KeyRecord)
  list up s =
      if up
      then ok (map (record_of env.format) (order_desc (λ key. key.id) s.rows))
      else err database

  -- `findOne`, on the row that the statement selects
  unfoldable pub find_one : Bool → Option (Key ℕ) → Result Error KeyRecord
  find_one true none = err not_found
  find_one true (some key) = ok (record_of env.format key)
  find_one false row = err database

  unfoldable pub find_by_name : Bool → String → PostgresStore → Result Error KeyRecord
  unfolding find_one
  find_by_name up name s =
      find_one up (select_row (λ key. str_eq key.name name) (order_desc (λ key. key.id) s.rows))

  unfoldable pub find_by_id : Bool → ℕ → PostgresStore → Result Error KeyRecord
  unfolding find_one
  find_by_id up id s = find_one up (select_row (has_id id) s.rows)
