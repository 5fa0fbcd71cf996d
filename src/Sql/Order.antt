-- ===== src/Sql/Order.antt =====
-- INSERT of a fresh key, and ORDER BY: the sorted rows are the table's rows, in falling order.
use mathlib.Core.List.{Perm}
use mathlib.Core.List.Perm
use sentrymesh.Base.{
  ℕ, suc, ◌≤◌, ◌≡◌, refl, ◌≢◌, inl, inr, arith, List, [], ◌∷◌, ◌++◌, none, some, ltb, ◌==◌,
  if◌then◌else◌, All, Bool-cases, All-concat,
}
use sentrymesh.Sql.{select_row, insert_desc, order_desc}
use sentrymesh.Sql.Laws.{row_at, IsKeyed}

module _ {ℓ} {Row : Type ℓ} (key : Row → ℕ) where
  abbrev pub IsDesc : List Row → Type 0
  IsDesc [] = Unit
  IsDesc (r ∷ rows) = All (λ s. key s ≤ key r) rows × IsDesc rows

  insert_desc-perm : (r : Row) (rows : List Row) → Perm (insert_desc key r rows) (r ∷ rows)
  unfolding insert_desc
  insert_desc-perm r [] = Perm.refl _
  insert_desc-perm r (s ∷ rows) = elim (Bool-cases (ltb (key s) (key r))) [
    | inl e ↦ rw e (Perm.refl _)
    | inr e ↦ rw e (Perm.trans (Perm.cons s (insert_desc-perm r rows)) (Perm.swap r s rows))
  ]

  pub order_desc-perm : (rows : List Row) → Perm (order_desc key rows) rows
  unfolding order_desc
  order_desc-perm [] = Perm.refl _
  order_desc-perm (r ∷ rows) =
      Perm.trans (insert_desc-perm r (order_desc key rows)) (Perm.cons r (order_desc-perm rows))

  All-le_trans :
      (m n : ℕ) (rows : List Row) → m ≤ n → All (λ s. key s ≤ m) rows → All (λ s. key s ≤ n) rows
  All-le_trans m n [] h a = tt
  All-le_trans m n (r ∷ rows) h a = (omega arith, All-le_trans m n rows h a.1)

  All-insert_desc :
      (n : ℕ) (r : Row) (rows : List Row)
      → key r ≤ n
      → All (λ s. key s ≤ n) rows
      → All (λ s. key s ≤ n) (insert_desc key r rows)
  unfolding insert_desc
  All-insert_desc n r [] h a = (h, tt)
  All-insert_desc n r (s ∷ rows) h a = ground (arith, All-insert_desc n r rows h a.1)

  insert_desc-IsDesc : (r : Row) (rows : List Row) → IsDesc rows → IsDesc (insert_desc key r rows)
  unfolding insert_desc
  insert_desc-IsDesc r [] d = (tt, tt)
  insert_desc-IsDesc r (s ∷ rows) d = elim (Bool-cases (ltb (key s) (key r))) [
    | inl e ↦ rw e ((ground arith, All-le_trans (key s) (key r) rows (ground arith) d.0), d)
    | inr e ↦
        rw e (All-insert_desc (key s) r rows (ground arith) d.0, insert_desc-IsDesc r rows d.1)
  ]

  pub order_desc-IsDesc : (rows : List Row) → IsDesc (order_desc key rows)
  unfolding order_desc
  order_desc-IsDesc [] = tt
  order_desc-IsDesc (r ∷ rows) = insert_desc-IsDesc r (order_desc key rows) (order_desc-IsDesc rows)

  -- No row stands under a key from the bound on.
  pub row_at-fresh :
      (bound k : ℕ) (rows : List Row)
      → bound ≤ k
      → IsKeyed key bound rows
      → row_at key k rows ≡ none
  unfolding select_row
  row_at-fresh bound k [] h w = refl
  row_at-fresh bound k (r ∷ rows) h w = ground (arith, row_at-fresh bound k rows h w.2)

  -- A row inserted under a fresh key is the one found there, and the others stay.
  pub row_at-append :
      (k : ℕ) (rows : List Row) (r : Row)
      → IsKeyed key (key r) rows
      → row_at key k (rows ++ r ∷ []) ≡ (if key r == k then some r else row_at key k rows)
  unfolding select_row
  row_at-append k [] r w = refl
  row_at-append k (s ∷ rows) r w = ground (arith, row_at-append k rows r w.2, w.0)

  IsKeyed-ne :
      (bound : ℕ) (rows : List Row) → IsKeyed key bound rows → All (λ s. key s ≢ bound) rows
  IsKeyed-ne bound [] w = tt
  IsKeyed-ne bound (r ∷ rows) w = (λ e. omega (arith, w.0), IsKeyed-ne bound rows w.2)

  -- The row goes to the end, and the bound to the next key.
  pub append-IsKeyed :
      (rows : List Row) (r : Row)
      → IsKeyed key (key r) rows
      → IsKeyed key (suc (key r)) (rows ++ r ∷ [])
  append-IsKeyed rows r w = go rows (key r) refl w
    where
      go : (l : List Row) (n : ℕ) → key r ≡ n → IsKeyed key n l → IsKeyed key (suc n) (l ++ r ∷ [])
      go [] n e v = (omega arith, tt, tt)
      go (s ∷ l) n e v = (
        omega (arith, v.0),
        All-concat (λ t. key t ≢ key s) l r v.1 (λ q. omega (arith, v.0)),
        go l n e v.2,
      )
