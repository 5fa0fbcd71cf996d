-- ===== src/Sql/Laws.antt =====
-- Laws of the table operations, stated at a key column.
use sentrymesh.Base.{
  ℕ, ◌<◌, ◌≡◌, refl, ◌≢◌, inl, inr, arith, Bool, ◌&&◌, List, [], ◌∷◌, Option, none, some, ◌==◌,
  if◌then◌else◌, All, Bool-cases,
}
use sentrymesh.Sql.{select_row, update_rows, affected}

module _ {ℓ} {Row : Type ℓ} (key : Row → ℕ) where
  -- SELECT … WHERE key = k
  abbrev pub row_at : ℕ → List Row → Option Row
  row_at k = select_row (λ r. key r == k)

  -- Every key lies below the bound, and each key stands once.
  abbrev pub IsKeyed : ℕ → List Row → Type 0
  IsKeyed bound [] = Unit
  IsKeyed bound (r ∷ rows) = (key r < bound) × All (λ s. key s ≢ key r) rows × IsKeyed bound rows

  -- What an UPDATE of key `j` under a further test makes of the row at any key.
  abbrev pub touched : (Row → Bool) → (Row → Row) → ℕ → Option Row → Option Row
  touched p f j none = none
  touched p f j (some r) = some (if key r == j && p r then f r else r)

  pub row_at-update_rows :
      (p : Row → Bool) (f : Row → Row)
      → ((r : Row) → key (f r) ≡ key r)
      → (k j : ℕ) (rows : List Row)
      → row_at k (update_rows (λ r. key r == j && p r) f rows) ≡ touched p f j (row_at k rows)
  unfolding select_row update_rows
  row_at-update_rows p f keeps k j [] = refl
  row_at-update_rows p f keeps k j (r ∷ rows) =
      ground (arith, keeps r, row_at-update_rows p f keeps k j rows)

  -- How many rows it affects, when keys stand once.
  abbrev pub hit : (Row → Bool) → Option Row → ℕ
  hit p none = 0
  hit p (some r) = if p r then 1 else 0

  affected-absent :
      (p : Row → Bool) (j : ℕ) (rows : List Row)
      → All (λ s. key s ≢ j) rows
      → affected (λ r. key r == j && p r) rows ≡ 0
  unfolding affected
  affected-absent p j [] h = refl
  affected-absent p j (r ∷ rows) h = ground (arith, h.0, affected-absent p j rows h.1)

  All-ne_subst :
      (i j : ℕ) (rows : List Row) → i ≡ j → All (λ s. key s ≢ i) rows → All (λ s. key s ≢ j) rows
  All-ne_subst i j [] e h = tt
  All-ne_subst i j (r ∷ rows) e h = (λ q. h.0 (omega arith), All-ne_subst i j rows e h.1)

  pub affected-hit :
      (p : Row → Bool) (bound j : ℕ) (rows : List Row)
      → IsKeyed bound rows
      → affected (λ r. key r == j && p r) rows ≡ hit p (row_at j rows)
  unfolding select_row affected
  affected-hit p bound j [] h = refl
  affected-hit p bound j (r ∷ rows) (lt, fresh, rest) = elim (Bool-cases (key r == j)) [
    | inl e ↦
        ground (arith, affected-absent p j rows (All-ne_subst (key r) j rows (ground arith) fresh))
    | inr e ↦ ground (arith, affected-hit p bound j rows rest)
  ]

  All-update_rows :
      (q : Row → Bool) (f : Row → Row) (j : ℕ) (rows : List Row)
      → ((r : Row) → key (f r) ≡ key r)
      → All (λ s. key s ≢ j) rows
      → All (λ s. key s ≢ j) (update_rows q f rows)
  unfolding update_rows
  All-update_rows q f j [] keeps h = tt
  All-update_rows q f j (r ∷ rows) keeps h =
      (ground (arith, h.0, keeps r), All-update_rows q f j rows keeps h.1)

  -- An UPDATE that leaves the key alone keeps a table keyed.
  pub update_rows-IsKeyed :
      (q : Row → Bool) (f : Row → Row) (bound : ℕ) (rows : List Row)
      → ((r : Row) → key (f r) ≡ key r)
      → IsKeyed bound rows
      → IsKeyed bound (update_rows q f rows)
  unfolding update_rows
  update_rows-IsKeyed q f bound [] keeps h = tt
  update_rows-IsKeyed q f bound (r ∷ rows) keeps (lt, fresh, rest) = (
    ground (arith, keeps r),
    All-ne_subst (key r) _ _ (ground (arith, keeps r))
        (All-update_rows q f (key r) rows keeps fresh),
    update_rows-IsKeyed q f bound rows keeps rest,
  )

  -- The row found under a key has that key.
  pub row_at-key : (k : ℕ) (rows : List Row) (r : Row) → row_at k rows ≡ some r → key r ≡ k
  unfolding select_row
  row_at-key k [] r h = cc
  row_at-key k (s ∷ rows) r h = ground (arith, row_at-key k rows r)

  row_at-absent : (k : ℕ) (rows : List Row) → All (λ s. key s ≢ k) rows → row_at k rows ≡ none
  unfolding select_row
  row_at-absent k [] h = refl
  row_at-absent k (r ∷ rows) h = ground (arith, h.0, row_at-absent k rows h.1)

  -- What holds of every row that a key finds holds of every row of a keyed table.
  pub All-of-row_at {κ} :
      (P : Row → Type κ) (bound : ℕ) (rows : List Row)
      → IsKeyed bound rows
      → ((k : ℕ) (r : Row) → row_at k rows ≡ some r → P r)
      → All P rows
  unfolding select_row
  All-of-row_at P bound [] w h = tt
  All-of-row_at P bound (r ∷ rows) (lt, fresh, rest) h =
      (h (key r) r (ground arith), All-of-row_at P bound rows rest later)
    where
      later : (k : ℕ) (q : Row) → row_at k rows ≡ some q → P q
      later k q e = elim (Bool-cases (key r == k)) [
        | inl same ↦ cc (row_at-absent k rows (All-ne_subst (key r) k rows (ground arith) fresh))
        | inr other ↦ h k q (rw other e)
      ]
