-- ===== src/Sql/Images.antt =====
-- The statements on a table whose rows are those of another table under a map of rows.
use mathlib.Core.Option
use sentrymesh.Base.{
  ℕ, ◌≡◌, refl, ap, ◌∙◌, Bool, List, [], ◌∷◌, ◌++◌, map, Bool-cases, inl, inr, any, ltb,
}
use sentrymesh.Sql.{select_row, update_rows, affected, insert_desc, order_desc}

module _ {ℓ κ} {Row : Type ℓ} {Image : Type κ} (image : Row → Image) where
  pub select_row-map :
      (p : Row → Bool) (q : Image → Bool)
      → ((r : Row) → q (image r) ≡ p r)
      → (rows : List Row) → select_row q (map image rows) ≡ Option.map image (select_row p rows)
  unfolding select_row
  select_row-map p q same [] = refl
  select_row-map p q same (r ∷ rows) = elim (Bool-cases (p r)) [
    | inl e ↦ rw (same r) (rw e refl)
    | inr e ↦ rw (same r) (rw e (select_row-map p q same rows))
  ]

  pub update_rows-map :
      (p : Row → Bool) (q : Image → Bool) (f : Row → Row) (g : Image → Image)
      → ((r : Row) → q (image r) ≡ p r)
      → ((r : Row) → g (image r) ≡ image (f r))
      → (rows : List Row) → update_rows q g (map image rows) ≡ map image (update_rows p f rows)
  unfolding update_rows
  update_rows-map p q f g same moves [] = refl
  update_rows-map p q f g same moves (r ∷ rows) = elim (Bool-cases (p r)) [
    | inl e ↦ rw (same r) (rw (e, moves r, update_rows-map p q f g same moves rows) refl)
    | inr e ↦ rw (same r) (rw (e, update_rows-map p q f g same moves rows) refl)
  ]

  pub affected-map :
      (p : Row → Bool) (q : Image → Bool)
      → ((r : Row) → q (image r) ≡ p r)
      → (rows : List Row) → affected q (map image rows) ≡ affected p rows
  unfolding affected
  affected-map p q same [] = refl
  affected-map p q same (r ∷ rows) = elim (Bool-cases (p r)) [
    | inl e ↦ rw (same r) (rw (e, affected-map p q same rows) refl)
    | inr e ↦ rw (same r) (rw (e, affected-map p q same rows) refl)
  ]

  pub any-map :
      (p : Row → Bool) (q : Image → Bool)
      → ((r : Row) → q (image r) ≡ p r)
      → (rows : List Row) → any q (map image rows) ≡ any p rows
  any-map p q same [] = refl
  any-map p q same (r ∷ rows) = elim (Bool-cases (p r)) [
    | inl e ↦ rw (same r) (rw e refl)
    | inr e ↦ rw (same r) (rw e (any-map p q same rows))
  ]

  insert_desc-map :
      (key : Row → ℕ) (code : Image → ℕ)
      → ((r : Row) → code (image r) ≡ key r)
      → (r : Row) (rows : List Row)
      → insert_desc code (image r) (map image rows) ≡ map image (insert_desc key r rows)
  unfolding insert_desc
  insert_desc-map key code same r [] = refl
  insert_desc-map key code same r (s ∷ rows) = elim (Bool-cases (ltb (key s) (key r))) [
    | inl e ↦ rw (same r, same s) (rw e refl)
    | inr e ↦ rw (same r, same s) (rw (e, insert_desc-map key code same r rows) refl)
  ]

  pub order_desc-map :
      (key : Row → ℕ) (code : Image → ℕ)
      → ((r : Row) → code (image r) ≡ key r)
      → (rows : List Row) → order_desc code (map image rows) ≡ map image (order_desc key rows)
  unfolding order_desc
  order_desc-map key code same [] = refl
  order_desc-map key code same (r ∷ rows) =
      ap (insert_desc code (image r)) (order_desc-map key code same rows)
      ∙ insert_desc-map key code same r (order_desc key rows)

  pub map-append_one :
      (rows : List Row) (r : Row) → map image (rows ++ r ∷ []) ≡ map image rows ++ image r ∷ []
  map-append_one [] r = refl
  map-append_one (s ∷ rows) r = ap (λ l. image s ∷ l) (map-append_one rows r)
