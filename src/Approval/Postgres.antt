-- ===== src/Approval/Postgres.antt =====
-- gateway/internal/approval/postgres.go: the same table on PostgreSQL. A JSONB column takes a text
-- that `accepts` holds of, and gives back what `canon` makes of it; a Request keeps its times, which
-- stand for their RFC 3339 texts.
use sentrymesh.Base.{
  ℕ, suc, String, Bool, not, List, ◌∷◌, [], ◌++◌, none, some, ◌==◌, if◌then◌else◌, filter, Result,
  ok, err,
}
use sentrymesh.Json.{Arguments}
use sentrymesh.Tools.{Reason}
use sentrymesh.Sql.{select_row, order_desc}
use sentrymesh.Approval.{
  Codec, Status, approved, executing, Request, Store, Error, database, marshalling, not_found,
  already_resolved, new_request, update, count, is_pending, is_claimable, is_executing, is_active,
  with_status, finished_at,
}

-- The columns of type JSONB.
pub record Jsonb : Type 0 where
  pub accepts : String → Bool
  pub canon : String → String

pub data Failure : Type 0 where
  plain : Error → Failure
  not_executing : Failure  -- "approval is not executing"

-- A row as it is read back.
abbrev pub canonical : Jsonb → Request → Request
canonical json r = record r { arguments = json.canon r.arguments }

-- The row is written with the arguments that the column keeps, and returned with those given.
unfoldable pub insert_row : Jsonb → Bool → Request → Store → Result Failure Request × Store
insert_row json up row s =
    if not up
    then (err (plain database), s)
    else if json.accepts row.arguments
    then (ok row, record { next_id = suc s.next_id; rows = s.rows ++ canonical json row ∷ [] })
    else (err (plain database), s)

unfoldable pub create :
    Codec
    → Jsonb
    → Bool
    → ℕ
    → String
    → Arguments
    → ℕ
    → Reason
    → Store
    → Result Failure Request × Store
unfolding insert_row
create codec json up now tool arguments risk reason s = elim (codec.marshal arguments) [
  | none ↦ (err (plain marshalling), s)
  | some doc ↦ insert_row json up (new_request s.next_id now tool doc risk reason) s
]

unfoldable pub get : Bool → ℕ → Store → Result Failure Request
get up id s =
    if up
    then elim (select_row (λ r. r.id == id) s.rows) [ none ↦ err (plain not_found) | some r ↦ ok r ]
    else err (plain database)

unfoldable pub set_status : Bool → ℕ → Status → Store → Result Failure (Unit {0}) × Store
set_status up id status s =
    if up
    then (
      (if count is_pending id s == 0 then err (plain already_resolved) else ok tt),
      update is_pending (with_status status) id s,
    )
    else (err (plain database), s)

unfoldable pub claim_execution : Bool → ℕ → Store → Result Failure Bool × Store
claim_execution up id s =
    if up
    then (ok (count is_claimable id s == 1), update is_claimable (with_status executing) id s)
    else (err (plain database), s)

unfoldable pub finish_execution : Bool → ℕ → ℕ → Store → Result Failure (Unit {0}) × Store
finish_execution up now id s =
    if up
    then (
      (if count is_executing id s == 1 then ok tt else err not_executing),
      update is_executing (finished_at now) id s,
    )
    else (err (plain database), s)

unfoldable pub fail_execution : Bool → ℕ → Store → Result Failure (Unit {0}) × Store
fail_execution up id s =
    if up
    then (
      (if count is_executing id s == 1 then ok tt else err not_executing),
      update is_executing (with_status approved) id s,
    )
    else (err (plain database), s)

-- `list`, under a WHERE clause
unfoldable pub list : (Request → Bool) → Bool → Store → Result Failure (List Request)
list where_clause up s =
    if up then ok (order_desc (λ r. r.id) (filter where_clause s.rows)) else err (plain database)

unfoldable pub list_pending : Bool → Store → Result Failure (List Request)
unfolding list
list_pending = list is_pending

unfoldable pub list_active : Bool → Store → Result Failure (List Request)
unfolding list
list_active = list is_active
