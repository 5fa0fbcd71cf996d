-- ===== src/Migrations/Tests.antt =====
-- Runs of the migrations, and their theorem at a run that stops half-way.
use sentrymesh.Base.{
  ◌≡◌, refl, String, true, false, List, [], ◌∷◌, ◌++◌, Option, some, str_eq, if◌then◌else◌,
}
use sentrymesh.Migrations.{
  Entry, Luck, Database, commit_transaction, insert_entry, sort_entries, apply_one, migrate_one,
  migrate_all, run_migrations,
}
use sentrymesh.Migrations.Resuming.{all_well, well, run_migrations-again}

-- A schema is the scripts that made it.
abbrev apply : String → List String → Option (List String)
apply script schema = some (schema ++ script ∷ [])

abbrev file : String → String → Entry
file name script = record { name = name; is_dir = false; script = some script }

abbrev entries : List Entry
entries = file "0002.sql" "two" ∷ file "0001.sql" "one" ∷ []

abbrev fresh : Database apply
fresh = record { schema = []; versions = [] }

-- The second commit fails.
abbrev shaky : String → Luck
shaky version = if str_eq version "0002.sql" then record all_well { commit = false } else all_well

half_way :
    run_migrations apply true shaky (some entries) fresh
    ≡ (some commit_transaction, record { schema = "one" ∷ []; versions = "0001.sql" ∷ [] })
unfolding run_migrations migrate_all migrate_one apply_one sort_entries insert_entry
half_way = refl

run_migrations-again_example :
    run_migrations apply true
      (well apply)
      (some entries)
      (run_migrations apply true shaky (some entries) fresh).1
    ≡ run_migrations apply true (well apply) (some entries) fresh
run_migrations-again_example = run_migrations-again apply true shaky entries fresh
