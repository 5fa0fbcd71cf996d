-- ===== src/Migrations/Resuming.antt =====
-- A run of the migrations (gateway/internal/database/migrations.go) that stopped at an error is made up
-- for by the next one.
use sentrymesh.Base.{
  String, ◌≡◌, refl, sym, ap, subst, ◌∙◌, arith, ◌⊎◌, inl, inr, Bool, true, false, not, List, [],
  ◌∷◌, ◌++◌, Option, none, some, any, is_none, str_eq, if◌then◌else◌, if_elim, Bool-cases,
}
use text.Mathlib.TextPositions.{eq_refl}
use sentrymesh.Migrations.{
  Entry, Luck, Error, Database, check, read, begin_transaction, apply_script, record_version,
  commit_transaction, is_applied, apply_one, read_and_apply, migrate_one, migrate_all, sort_entries,
  run_migrations,
}

abbrev pub all_well : Luck
all_well = record { query = true; begin = true; insert = true; commit = true }

any-append :
    (version : String) (xs ys : List String)
    → any (λ v. str_eq v version) xs ≡ true
    → any (λ v. str_eq v version) (xs ++ ys) ≡ true
any-append version [] ys h = cc
any-append version (x ∷ xs) ys h = ground (arith, any-append version xs ys)

any-last :
    (version : String) (xs : List String) → any (λ v. str_eq v version) (xs ++ version ∷ []) ≡ true
any-last version [] = rw (eq_refl version) refl
any-last version (x ∷ xs) = ground (arith, any-last version xs)

if_true {ℓ} : {A : Type ℓ} (b : Bool) (x y : A) → b ≡ true → (if b then x else y) ≡ x
if_true true x y h = refl
if_true false x y h = cc

if_false {ℓ} : {A : Type ℓ} (b : Bool) (x y : A) → b ≡ false → (if b then x else y) ≡ y
if_false true x y h = cc
if_false false x y h = refl

module _ {Schema : Type 0} (apply : String → Schema → Option Schema) where
  -- The version is recorded.
  abbrev pub Knows : String → Database apply → Type 0
  Knows version db = is_applied apply version db ≡ true

  -- What one entry makes of the database: nothing, without an error or with one, or the script's
  -- schema with the version recorded, as it would when all is well.
  data Step (entry : Entry) (db : Database apply) : Option Error × Database apply → Type 0 where
    skips : (entry.is_dir ≡ true) ⊎ Knows entry.name db → Step entry db (none, db)
    stops : (e : Error) → Step entry db (some e, db)
    applies :
        (next : Database apply)
        → migrate_one apply all_well entry db ≡ (none, next)
        → entry.is_dir ≡ false
        → next.versions ≡ db.versions ++ entry.name ∷ []
        → Step entry db (none, next)

  abbrev applied_to : Entry → Database apply → Schema → Database apply
  applied_to entry db schema = record { schema = schema; versions = db.versions ++ entry.name ∷ [] }

  apply_one-Step :
      (luck : Luck) (entry : Entry) (script : String) (db : Database apply)
      → migrate_one apply all_well entry db ≡ apply_one apply all_well entry.name script db
      → entry.is_dir ≡ false
      → Step entry db (apply_one apply luck entry.name script db)
  unfolding apply_one
  apply_one-Step luck entry script db well file =
      if_elim (Step entry db) (not luck.begin) (λ e. stops begin_transaction)
        (λ e. go (apply script db.schema) refl)
    where
      go :
          (o : Option Schema)
          → apply script db.schema ≡ o
          → Step entry db (elim o [
            | none ↦ (some apply_script, db)
            | some schema ↦
                if not luck.insert
                then (some record_version, db)
                else if not luck.commit
                then (some commit_transaction, db)
                else (none, applied_to entry db schema)
          ])
      go none e = stops apply_script
      go (some schema) e =
          if_elim (Step entry db) (not luck.insert) (λ i. stops record_version)
            (λ i.
              if_elim (Step entry db) (not luck.commit) (λ c. stops commit_transaction)
                (λ c. applies (applied_to entry db schema) (well ∙ rw e refl) file refl))

  migrate_one-Step :
      (luck : Luck) (entry : Entry) (db : Database apply)
      → Step entry db (migrate_one apply luck entry db)
  unfolding migrate_one
  migrate_one-Step luck entry db =
      let S = Step entry db in
      if_elim S entry.is_dir (λ d. skips (inl d))
        (λ file.
          if_elim S (not luck.query) (λ e. stops check)
            (λ e.
              if_elim S (is_applied apply entry.name db) (λ a. skips (inr a))
                (λ new. reads file new entry.script refl)))
    where
      reads :
          entry.is_dir ≡ false
          → is_applied apply entry.name db ≡ false
          → (o : Option String) → entry.script ≡ o
          → Step entry db (read_and_apply apply luck entry.name o db)
      reads file new none e = stops read
      reads file new (some script) e =
          apply_one-Step luck entry script db
            (if_false entry.is_dir _ _ file
              ∙ if_false (is_applied apply entry.name db) _ _ new
              ∙ ap (λ o. read_and_apply apply all_well entry.name o db) e)
            file

  migrate_one-Knows :
      (version : String) (luck : Luck) (entry : Entry) (db : Database apply)
      → Knows version db
      → Knows version (migrate_one apply luck entry db).1
  migrate_one-Knows version luck entry db h = go (migrate_one-Step luck entry db)
    where
      go : {o : Option Error × Database apply} → Step entry db o → Knows version o.1
      go (skips e) = h
      go (stops e) = h
      go (applies next e file grown) =
          subst (λ vs. any (λ v. str_eq v version) vs ≡ true) (sym grown)
            (any-append version db.versions _ h)

  migrate_all-Knows :
      (version : String) (luck : String → Luck) (entries : List Entry) (db : Database apply)
      → Knows version db
      → Knows version (migrate_all apply luck entries db).1
  unfolding migrate_all
  migrate_all-Knows version luck [] db h = h
  migrate_all-Knows version luck (entry ∷ entries) db h =
      let one = migrate_one apply (luck entry.name) entry db in
      let kept = migrate_one-Knows version (luck entry.name) entry db h in
      if_elim (λ (o : Option Error × Database apply). Knows version o.1) (is_none one.0)
        (λ e. migrate_all-Knows version luck entries one.1 kept) (λ e. kept)

  -- With all well, an entry that is a directory or recorded is passed over.
  well-skips :
      (entry : Entry) (db : Database apply)
      → (entry.is_dir ≡ true) ⊎ Knows entry.name db
      → migrate_one apply all_well entry db ≡ (none, db)
  unfolding migrate_one
  well-skips entry db (inl d) = if_true entry.is_dir _ _ d
  well-skips entry db (inr k) = elim (Bool-cases entry.is_dir) [
    | inl d ↦ if_true entry.is_dir _ _ d
    | inr file ↦ if_false entry.is_dir _ _ file ∙ if_true (is_applied apply entry.name db) _ _ k
  ]

  abbrev pub well : String → Luck
  well version = all_well

  migrate_all-cons :
      (entry : Entry) (entries : List Entry) (db next : Database apply)
      → migrate_one apply all_well entry db ≡ (none, next)
      → migrate_all apply well (entry ∷ entries) db ≡ migrate_all apply well entries next
  unfolding migrate_all
  migrate_all-cons entry entries db next e =
      ap
        (λ (o : Option Error × Database apply).
          if is_none o.0 then migrate_all apply well entries o.1 else o)
        e

  migrate_all-again :
      (luck : String → Luck) (entries : List Entry) (db : Database apply)
      → migrate_all apply well entries (migrate_all apply luck entries db).1
        ≡ migrate_all apply well entries db
  unfolding migrate_all
  migrate_all-again luck [] db = refl
  migrate_all-again luck (entry ∷ entries) db =
      go (λ next. migrate_all-again luck entries next) (migrate_one-Step (luck entry.name) entry db)
    where
      Earlier : Type 0
      Earlier =
          (next : Database apply)
          → migrate_all apply well entries (migrate_all apply luck entries next).1
            ≡ migrate_all apply well entries next

      again :
          Earlier
          → (next : Database apply) → migrate_one apply all_well entry db ≡ (none, next)
          → (entry.is_dir ≡ true) ⊎ Knows entry.name (migrate_all apply luck entries next).1
          → migrate_all apply well (entry ∷ entries) (migrate_all apply luck entries next).1
            ≡ migrate_all apply well (entry ∷ entries) db
      again earlier next e passed =
          migrate_all-cons entry entries _ _
            (well-skips entry (migrate_all apply luck entries next).1 passed)
          ∙ earlier next
          ∙ sym (migrate_all-cons entry entries db next e)

      still :
          (db' : Database apply)
          → (entry.is_dir ≡ true) ⊎ Knows entry.name db'
          → (entry.is_dir ≡ true) ⊎ Knows entry.name (migrate_all apply luck entries db').1
      still db' (inl d) = inl d
      still db' (inr k) = inr (migrate_all-Knows entry.name luck entries db' k)

      go :
          Earlier
          → {o : Option Error × Database apply} → Step entry db o
          → migrate_all apply well
              (entry ∷ entries)
              (if is_none o.0 then migrate_all apply luck entries o.1 else o).1
            ≡ migrate_all apply well (entry ∷ entries) db
      go earlier (skips passed) = again earlier db (well-skips entry db passed) (still db passed)
      go earlier (stops e) = refl
      go earlier (applies next e file grown) = again earlier next e (
          still next (
            inr (
              subst (λ vs. any (λ v. str_eq v entry.name) vs ≡ true) (sym grown)
                (any-last entry.name db.versions))))

  -- However a run of the migrations fails, the next run in which the database answers ends with the
  -- same error, or none, and the same schema and versions as if the failed run had not been: nothing
  -- is applied twice and nothing is left out.
  pub run_migrations-again :
      (table : Bool) (luck : String → Luck) (entries : List Entry) (db : Database apply)
      → run_migrations apply true well
          (some entries)
          (run_migrations apply table luck (some entries) db).1
        ≡ run_migrations apply true well (some entries) db
  unfolding run_migrations
  run_migrations-again true luck entries db = migrate_all-again luck (sort_entries apply entries) db
  run_migrations-again false luck entries db = refl
