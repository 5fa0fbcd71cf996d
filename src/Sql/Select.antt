-- ===== src/Sql/Select.antt =====
-- What a SELECT by any test finds after an UPDATE or an INSERT.
use sentrymesh.Base.{
  ◌≡◌, ◌==◌, refl, arith, Bool, true, false, List, [], ◌∷◌, ◌++◌, Option, none, some, Bool-cases,
  inl, inr, if◌then◌else◌, any,
}
use sentrymesh.Sql.{select_row, update_rows, affected}

module _ {ℓ} {Row : Type ℓ} (p : Row → Bool) where
  -- What an UPDATE makes of a row.
  abbrev pub changed : (Row → Bool) → (Row → Row) → Option Row → Option Row
  changed q f none = none
  changed q f (some r) = some (if q r then f r else r)

  pub select_row-update_rows :
      (q : Row → Bool) (f : Row → Row) (rows : List Row)
      → ((r : Row) → p (f r) ≡ p r)
      → select_row p (update_rows q f rows) ≡ changed q f (select_row p rows)
  unfolding select_row update_rows
  select_row-update_rows q f [] keeps = refl
  select_row-update_rows q f (r ∷ rows) keeps =
      ground (arith, keeps r, select_row-update_rows q f rows keeps)

  pub select_row-hit : (rows : List Row) (r : Row) → select_row p rows ≡ some r → p r ≡ true
  unfolding select_row
  select_row-hit [] r h = cc
  select_row-hit (s ∷ rows) r h = ground (arith, select_row-hit rows r)

  -- A row inserted at the end is found only when no earlier one is.
  pub select_row-append_old :
      (rows more : List Row) (r : Row)
      → select_row p rows ≡ some r
      → select_row p (rows ++ more) ≡ some r
  unfolding select_row
  select_row-append_old [] more r h = cc
  select_row-append_old (s ∷ rows) more r h = ground (arith, select_row-append_old rows more r)

  pub select_row-append_new :
      (rows : List Row) (r : Row)
      → any p rows ≡ false
      → p r ≡ true
      → select_row p (rows ++ r ∷ []) ≡ some r
  unfolding select_row
  select_row-append_new [] r h e = rw e refl
  select_row-append_new (s ∷ rows) r h e = ground (arith, select_row-append_new rows r)

  -- A statement whose test holds of the row found affects some row.
  pub affected-found :
      (q : Row → Bool) (rows : List Row) (r : Row)
      → select_row p rows ≡ some r
      → q r ≡ true
      → (affected q rows == 0) ≡ false
  unfolding select_row affected
  affected-found q [] r h e = cc
  affected-found q (s ∷ rows) r h e = ground (arith, affected-found q rows r)

  -- When a row is found by one test, every other test that holds of it finds some row.
  pub select_row-found :
      (q : Row → Bool) (rows : List Row) (r : Row)
      → select_row p rows ≡ some r
      → q r ≡ true
      → (s : Row) × (select_row q rows ≡ some s)
  unfolding select_row
  select_row-found q [] r h e = cc
  select_row-found q (s ∷ rows) r h e = elim (Bool-cases (q s)) [
    | inl hit ↦ (s, rw hit refl)
    | inr miss ↦ elim (Bool-cases (p s)) [
      | inl first ↦ absurd (ground (arith, first, miss, e, h))
      | inr other ↦
          let (t, found) = select_row-found q rows r (ground (arith, other, h)) e in
          (t, rw miss found)
    ]
  ]

  -- When a row is found, there is one.
  pub select_row-any : (rows : List Row) (r : Row) → select_row p rows ≡ some r → any p rows ≡ true
  unfolding select_row
  select_row-any [] r h = cc
  select_row-any (s ∷ rows) r h = ground (arith, select_row-any rows r)
