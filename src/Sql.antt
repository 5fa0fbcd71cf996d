-- ===== src/Sql.antt =====
-- The statements that the stores send to their database, over a table as a list of rows in the
-- order of insertion: SELECT … WHERE, UPDATE … SET … WHERE with the count of rows affected, DELETE,
-- ORDER BY a number, descending. Each store module says which statement is which.
pub mod Laws
pub mod Order
pub mod Select
pub mod Images
use sentrymesh.Base.{ℕ, suc, Bool, List, [], ◌∷◌, Option, none, some, ltb, if◌then◌else◌}

module _ {ℓ} {Row : Type ℓ} where
  -- The first row that a WHERE clause holds of.
  unfoldable pub select_row : (Row → Bool) → List Row → Option Row
  select_row p [] = none
  select_row p (r ∷ rows) = if p r then some r else select_row p rows

  unfoldable pub update_rows : (Row → Bool) → (Row → Row) → List Row → List Row
  update_rows p f [] = []
  update_rows p f (r ∷ rows) = (if p r then f r else r) ∷ update_rows p f rows

  -- `RowsAffected` of an UPDATE or a DELETE.
  unfoldable pub affected : (Row → Bool) → List Row → ℕ
  affected p [] = 0
  affected p (r ∷ rows) = if p r then suc (affected p rows) else affected p rows

  -- Insertion of a row before the first with a smaller key.
  unfoldable pub insert_desc : (Row → ℕ) → Row → List Row → List Row
  insert_desc key r [] = r ∷ []
  insert_desc key r (s ∷ rows) =
      if ltb (key s) (key r) then r ∷ s ∷ rows else s ∷ insert_desc key r rows

  unfoldable pub order_desc : (Row → ℕ) → List Row → List Row
  unfolding insert_desc
  order_desc key [] = []
  order_desc key (r ∷ rows) = insert_desc key r (order_desc key rows)
