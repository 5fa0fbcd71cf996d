-- ===== src/Abuse/Store.antt =====
-- The SQLite table of the abuse states (gateway/internal/abuse/store.go), which implements the
-- repository that the tracker uses. The text of a time is Go's, so `format` and `parse`, the layout
-- time.RFC3339Nano in UTC, are parameters.
use mathlib.Core.Option.{map as map_option}
use sentrymesh.Base.{
  ℕ, String, Bool, true, not, List, [], ◌∷◌, Option, none, some, Result, ok, err, filter, ◌==◌,
  if◌then◌else◌, ◌>>=◌, ◌↔◌, ◌≡◌, ◌≢◌, refl, arith, ==_iff, Bool-cases, inl, inr,
}
use sentrymesh.Sql.{select_row, affected}
use sentrymesh.Abuse.{StoredState, Repository, IsFaithful}

pub record Row : Type 0 where
  pub key_id : ℕ
  pub score : ℕ
  pub last_updated : String
  pub cooldown_until : Option String

pub data Error : Type 0 where
  database : Error
  unknown_key : Error

-- INSERT … ON CONFLICT(key_id) DO UPDATE SET …
unfoldable pub upsert : Row → List Row → List Row
upsert row [] = row ∷ []
upsert row (other ∷ rows) =
    if other.key_id == row.key_id then row ∷ rows else other ∷ upsert row rows

-- DELETE FROM abuse_state WHERE key_id = ?
unfoldable pub delete : Bool → ℕ → List Row → Result Error (Unit {0}) × List Row
unfolding affected
delete up key_id rows =
    if not up
    then (err database, rows)
    else if affected (λ r. r.key_id == key_id) rows == 0
    then (err unknown_key, rows)
    else (ok tt, filter (λ r. not (r.key_id == key_id)) rows)

module _ (format : ℕ → String) (parse : String → Option ℕ) where
  abbrev pub row_of : StoredState → Row
  row_of s = record {
    key_id = s.key_id;
    score = s.score;
    last_updated = format s.last_updated;
    cooldown_until = map_option format s.cooldown_until;
  }

  unfoldable pub save : Bool → List Row → StoredState → List Row
  unfolding upsert
  save up rows s = if up then upsert (row_of s) rows else rows

  -- The scan of a row, with a text that does not parse as an error.
  abbrev pub parse_cooldown : Option String → Option (Option ℕ)
  parse_cooldown none = some none
  parse_cooldown (some doc) = map_option some (parse doc)

  unfoldable pub scan : Row → Option StoredState
  scan row = do
    last_updated ← parse row.last_updated
    cooldown_until ← parse_cooldown row.cooldown_until
    some (record {
      key_id = row.key_id;
      score = row.score;
      last_updated = last_updated;
      cooldown_until = cooldown_until;
    })

  -- SELECT … WHERE key_id = ?
  unfoldable pub load : Bool → List Row → ℕ → Option StoredState
  unfolding select_row scan
  load up rows key_id =
      if up
      then elim (select_row (λ r. r.key_id == key_id) rows) [ none ↦ none | some row ↦ scan row ]
      else none

  unfoldable pub repository : Repository
  unfolding load save
  repository = record { Db = List Row; load = load; save = save }

  pub scan-row_of :
      ((t : ℕ) → parse (format t) ≡ some t) → (s : StoredState) → scan (row_of s) ≡ some s
  unfolding scan
  scan-row_of round s = (parsed s.cooldown_until)
    where
      parsed :
          (end : Option ℕ)
          → scan (row_of (record s { cooldown_until = end }))
            ≡ some (record s { cooldown_until = end })
      parsed none = rw (scan, round s.last_updated) refl
      parsed (some end) = rw (scan, round s.last_updated, round end) refl

  select-upsert_self :
      (row : Row) (rows : List Row)
      → select_row (λ r. r.key_id == row.key_id) (upsert row rows) ≡ some row
  unfolding upsert select_row
  select-upsert_self row [] = ground arith
  select-upsert_self row (other ∷ rows) = ground (arith, select-upsert_self row rows)

  select-upsert_ne :
      (row : Row) (rows : List Row) (id : ℕ)
      → row.key_id ≢ id
      → select_row (λ r. r.key_id == id) (upsert row rows) ≡ select_row (λ r. r.key_id == id) rows
  unfolding upsert select_row
  select-upsert_ne row [] id apart = ground arith
  select-upsert_ne row (other ∷ rows) id apart = ground (arith, select-upsert_ne row rows id apart)

  -- The table implements the repository that the tracker relies on, when a time that was formatted
  -- parses to itself.
  pub repository-IsFaithful : ((t : ℕ) → parse (format t) ≡ some t) → IsFaithful repository
  unfolding repository load save
  repository-IsFaithful round = record {
    load-save_self = λ db s. rw (select-upsert_self (row_of s) db) (scan-row_of round s);
    load-save_ne = λ db s id apart. rw (select-upsert_ne (row_of s) db id apart) refl;
    load_down = λ db id. refl;
    save_down = λ db s. refl;
  }

  select-removed_self :
      (id : ℕ) (rows : List Row)
      → select_row (λ r. r.key_id == id) (filter (λ r. not (r.key_id == id)) rows) ≡ none
  unfolding select_row
  select-removed_self id [] = refl
  select-removed_self id (row ∷ rows) = ground (arith, select-removed_self id rows)

  select-removed_ne :
      (k id : ℕ) (rows : List Row)
      → id ≢ k
      → select_row (λ r. r.key_id == id) (filter (λ r. not (r.key_id == k)) rows)
        ≡ select_row (λ r. r.key_id == id) rows
  unfolding select_row
  select-removed_ne k id [] apart = refl
  select-removed_ne k id (row ∷ rows) apart = ground (arith, select-removed_ne k id rows apart)

  affected-absent :
      (id : ℕ) (rows : List Row)
      → (affected (λ r. r.key_id == id) rows ≡ 0) ↔ (select_row (λ r. r.key_id == id) rows ≡ none)
  unfolding select_row affected
  affected-absent id [] = (λ e. refl, λ e. refl)
  affected-absent id (row ∷ rows) = ground (arith, affected-absent id rows)

  load-select :
      (id : ℕ) (rows rows' : List Row)
      → select_row (λ r. r.key_id == id) rows ≡ select_row (λ r. r.key_id == id) rows'
      → load true rows id ≡ load true rows' id
  unfolding load
  load-select id rows rows' e = ground arith

  load-none :
      (id : ℕ) (rows : List Row)
      → select_row (λ r. r.key_id == id) rows ≡ none
      → load true rows id ≡ none
  unfolding load
  load-none id rows e = rw e refl

  -- A deletion that the database executes leaves the other keys' states, and none for its key; it
  -- fails exactly when there was none, and then changes nothing.
  pub delete-removes :
      (key_id : ℕ) (rows : List Row)
      → let after = delete true key_id rows in
        (load true after.1 key_id ≡ none)
        × ((id : ℕ) → id ≢ key_id → load true after.1 id ≡ load true rows id)
        × ((after.0 ≡ err unknown_key) ↔ (select_row (λ r. r.key_id == key_id) rows ≡ none))
  unfolding load delete
  delete-removes key_id rows = elim (Bool-cases (affected (λ r. r.key_id == key_id) rows == 0)) [
    | inl idle ↦
        rw (delete, idle)
          (
            load-none key_id rows (
                (affected-absent key_id rows).0
                  ((==_iff (affected (λ r. r.key_id == key_id) rows) 0).0 idle)),
            (λ id apart. refl),
            ((λ e. ground (arith, affected-absent key_id rows)), λ e. refl),
          )
    | inr hits ↦
        rw (delete, hits)
          (
            load-none key_id _ (select-removed_self key_id rows),
            (λ id apart. load-select id _ rows (select-removed_ne key_id id rows apart)),
            ((λ e. cc), λ e. ground (arith, affected-absent key_id rows)),
          )
  ]
