-- ===== src/Abuse/Postgres.antt =====
-- gateway/internal/abuse/postgres.go: the same table on PostgreSQL, whose rows hold times, and the
-- listings of both stores. A TIMESTAMPTZ keeps of a time what the parameter `kept` makes of it.
use mathlib.Core.Option.{map as map_option}
use sentrymesh.Base.{
  ℕ, String, Bool, true, false, not, ◌&&◌, ◌||◌, List, [], ◌∷◌, map, Option, none, some, Result, ok,
  err, filter, ◌==◌, ltb, if◌then◌else◌, ◌>>=◌, ◌≡◌, refl, ap, ◌∙◌, Bool-cases, inl, inr,
}
use sentrymesh.Sql.{select_row, affected}
use sentrymesh.Sql.Images.{select_row-map}
use sentrymesh.Abuse.{StoredState}
use sentrymesh.Abuse.Store
use sentrymesh.Abuse.Store.{Row, Error, database, unknown_key, row_of, scan, scan-row_of}

-- ORDER BY score DESC, key_id ASC
module _ {A : Type 0} (score key_id : A → ℕ) where
  abbrev pub comes_first : A → A → Bool
  comes_first a b = ltb (score b) (score a) || ((score a == score b) && ltb (key_id a) (key_id b))

  unfoldable pub insert_by_score : A → List A → List A
  insert_by_score a [] = a ∷ []
  insert_by_score a (b ∷ rows) =
      if comes_first b a then b ∷ insert_by_score a rows else a ∷ b ∷ rows

  unfoldable pub order_by_score : List A → List A
  unfolding insert_by_score
  order_by_score [] = []
  order_by_score (a ∷ rows) = insert_by_score a (order_by_score rows)

abbrev pub ordered_states : List StoredState → List StoredState
ordered_states = order_by_score (λ (s : StoredState). s.score) (λ (s : StoredState). s.key_id)

abbrev pub ordered_rows : List Row → List Row
ordered_rows = order_by_score (λ (r : Row). r.score) (λ (r : Row). r.key_id)

-- List of gateway/internal/abuse/store.go, which stops at the first text that does not parse.
module _ (format : ℕ → String) (parse : String → Option ℕ) where
  unfoldable pub scan_all : List Row → Option (List StoredState)
  scan_all [] = some []
  scan_all (row ∷ rows) = do
    state ← scan format parse row
    states ← scan_all rows
    some (state ∷ states)

  unfoldable pub list_rows : Bool → List Row → Option (List StoredState)
  unfolding scan_all
  list_rows up rows = if up then scan_all (ordered_rows rows) else none

module _ (kept : ℕ → ℕ) where
  abbrev pub kept_state : StoredState → StoredState
  kept_state s = record s {
    last_updated = kept s.last_updated;
    cooldown_until = map_option kept s.cooldown_until;
  }

  unfoldable pub upsert : StoredState → List StoredState → List StoredState
  upsert s [] = s ∷ []
  upsert s (other ∷ states) =
      if other.key_id == s.key_id then s ∷ states else other ∷ upsert s states

  unfoldable pub save : Bool → List StoredState → StoredState → List StoredState
  unfolding upsert
  save up states s = if up then upsert (kept_state s) states else states

unfoldable pub load : Bool → List StoredState → ℕ → Option StoredState
load up states key_id = if up then select_row (λ s. s.key_id == key_id) states else none

unfoldable pub list : Bool → List StoredState → Option (List StoredState)
list up states = if up then some (ordered_states states) else none

unfoldable pub delete : Bool → ℕ → List StoredState → Result Error (Unit {0}) × List StoredState
delete up key_id states =
    if not up
    then (err database, states)
    else if affected (λ s. s.key_id == key_id) states == 0
    then (err unknown_key, states)
    else (ok tt, filter (λ s. not (s.key_id == key_id)) states)

module _ (format : ℕ → String) (parse : String → Option ℕ)
    (round : (t : ℕ) → parse (format t) ≡ some t) where
  abbrev rows_of : List StoredState → List Row
  rows_of = map (row_of format parse)

  insert_by_score-rows_of :
      (s : StoredState) (states : List StoredState)
      → insert_by_score
          (λ (r : Row). r.score)
          (λ (r : Row). r.key_id)
          (row_of format parse s)
          (rows_of states)
        ≡ rows_of (
            insert_by_score (λ (t : StoredState). t.score) (λ (t : StoredState). t.key_id) s states)
  unfolding insert_by_score
  insert_by_score-rows_of s [] = refl
  insert_by_score-rows_of s (t ∷ states) =
      elim (Bool-cases
        (comes_first (λ (u : StoredState). u.score) (λ (u : StoredState). u.key_id) t s)) [
          | inl e ↦ rw e (ap (λ l. row_of format parse t ∷ l) (insert_by_score-rows_of s states))
          | inr e ↦ rw e refl
        ]

  ordered-rows_of :
      (states : List StoredState) → ordered_rows (rows_of states) ≡ rows_of (ordered_states states)
  unfolding order_by_score
  ordered-rows_of [] = refl
  ordered-rows_of (s ∷ states) =
      ap (insert_by_score (λ (r : Row). r.score) (λ (r : Row). r.key_id) (row_of format parse s))
        (ordered-rows_of states)
      ∙ insert_by_score-rows_of s (ordered_states states)

  scan_all-rows_of :
      (states : List StoredState) → scan_all format parse (rows_of states) ≡ some states
  unfolding scan_all
  scan_all-rows_of [] = refl
  scan_all-rows_of (s ∷ states) =
      rw (scan-row_of format parse round s, scan_all-rows_of states) refl

  -- The two stores list tables with the same states alike, when a time that was formatted parses to
  -- itself.
  pub list_rows-list :
      (up : Bool) (states : List StoredState)
      → list_rows format parse up (rows_of states) ≡ list up states
  unfolding list_rows list
  list_rows-list false states = refl
  list_rows-list true states =
      ap (scan_all format parse) (ordered-rows_of states) ∙ scan_all-rows_of (ordered_states states)

  -- And they load alike.
  pub load-load :
      (up : Bool) (states : List StoredState) (key_id : ℕ)
      → Store.load format parse up (rows_of states) key_id ≡ load up states key_id
  unfolding Store.load load
  load-load false states key_id = refl
  load-load true states key_id =
      rw
        (select_row-map (row_of format parse) (λ s. s.key_id == key_id) (λ r. r.key_id == key_id)
          (λ s. refl) states)
        (go (select_row (λ (s : StoredState). s.key_id == key_id) states))
    where
      go :
          (o : Option StoredState)
          → elim (map_option (row_of format parse) o) [
            | none ↦ none
            | some row ↦ scan format parse row
          ]
            ≡ o
      go none = refl
      go (some s) = scan-row_of format parse round s
