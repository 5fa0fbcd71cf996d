-- ===== src/Migrations.antt =====
-- gateway/internal/database/migrations.go: RunMigrations, over a schema that the parameter `apply`
-- changes by the text of a script, or refuses to. A transaction that is not committed leaves the
-- database as it was.
pub mod Resuming
mod Tests
use Prim.Native.String.{compare}
use text.Mathlib.Text.{is_lt}
use sentrymesh.Base.{
  String, Bool, true, false, not, List, [], ◌∷◌, ◌++◌, Option, none, some, any, is_none, str_eq,
  if◌then◌else◌,
}

-- An entry of the embedded directory.
pub record Entry : Type 0 where
  pub name : String
  pub is_dir : Bool
  pub script : Option String  -- `none` when the file cannot be read

-- Which statements about one migration the database answers.
pub record Luck : Type 0 where
  pub query : Bool
  pub begin : Bool
  pub insert : Bool
  pub commit : Bool

pub data Error : Type 0 where
  create_table check read begin_transaction apply_script record_version commit_transaction : Error

module _ {Schema : Type 0} (apply : String → Schema → Option Schema) where
  -- The schema, and the rows of `schema_migrations`.
  pub record Database : Type 0 where
    pub schema : Schema
    pub versions : List String

  unfoldable pub insert_entry : Entry → List Entry → List Entry
  insert_entry entry [] = entry ∷ []
  insert_entry entry (other ∷ entries) =
      if is_lt (compare other.name entry.name)
      then other ∷ insert_entry entry entries
      else entry ∷ other ∷ entries

  -- `sort.Slice` by name
  unfoldable pub sort_entries : List Entry → List Entry
  unfolding insert_entry
  sort_entries [] = []
  sort_entries (entry ∷ entries) = insert_entry entry (sort_entries entries)

  abbrev pub is_applied : String → Database → Bool
  is_applied version db = any (λ v. str_eq v version) db.versions

  -- The transaction, from `pool.Begin` on.
  unfoldable pub apply_one : Luck → String → String → Database → Option Error × Database
  apply_one luck version script db =
      if not luck.begin then (some begin_transaction, db) else elim (apply script db.schema) [
        | none ↦ (some apply_script, db)
        | some schema ↦
            if not luck.insert
            then (some record_version, db)
            else if not luck.commit
            then (some commit_transaction, db)
            else (none, record { schema = schema; versions = db.versions ++ version ∷ [] })
      ]

  abbrev pub read_and_apply : Luck → String → Option String → Database → Option Error × Database
  read_and_apply luck version none db = (some read, db)
  read_and_apply luck version (some script) db = apply_one luck version script db

  -- The body of the loop.
  unfoldable pub migrate_one : Luck → Entry → Database → Option Error × Database
  unfolding apply_one
  migrate_one luck entry db =
      if entry.is_dir
      then (none, db)
      else if not luck.query
      then (some check, db)
      else if is_applied entry.name db
      then (none, db)
      else read_and_apply luck entry.name entry.script db

  unfoldable pub migrate_all : (String → Luck) → List Entry → Database → Option Error × Database
  unfolding migrate_one
  migrate_all luck [] db = (none, db)
  migrate_all luck (entry ∷ entries) db =
      let one = migrate_one (luck entry.name) entry db in
      let rest = migrate_all luck entries one.1 in if is_none one.0 then rest else one

  -- `table` is whether CREATE TABLE IF NOT EXISTS is answered, and `listing` what ReadDir gives.
  unfoldable pub run_migrations :
      Bool → (String → Luck) → Option (List Entry) → Database → Option Error × Database
  unfolding migrate_all sort_entries
  run_migrations table luck none db = (some (if table then read else create_table), db)
  run_migrations table luck (some entries) db =
      if table then migrate_all luck (sort_entries entries) db else (some create_table, db)
