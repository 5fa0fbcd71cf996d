-- ===== src/Approval.antt =====
-- gateway/internal/approval/store.go: the table of approval requests and its statements. Every
-- operation takes `up`, whether the database executes its statement: if not, the operation returns
-- an error and the table is as before. A time stands for its RFC 3339 text, and encoding/json is the
-- parameter `Codec`. The SQLite driver's LastInsertId and RowsAffected do not fail.
pub mod Lifecycle
pub mod Listing
pub mod Races
pub mod Postgres
pub mod Calls
pub mod Agreement
mod Tests
use sentrymesh.Base.{
  ℕ, suc, String, Bool, true, false, ◌&&◌, ◌||◌, List, [], ◌∷◌, ◌++◌, Option, none, some, ◌==◌,
  if◌then◌else◌, is_none, filter, Result, ok, err,
}
use sentrymesh.Json.{Arguments}
use sentrymesh.Tools.{Reason}
use sentrymesh.Sql.{select_row, update_rows, affected, order_desc}

-- `json.Marshal` and `json.Unmarshal` between argument maps and their JSON text.
pub record Codec : Type 0 where
  pub marshal : Arguments → Option String
  pub unmarshal : String → Option Arguments

-- The three constants, and the texts "EXECUTING" and "EXECUTED" that the statements write.
pub data Status : Type 0 where
  pending approved rejected executing executed : Status

abbrev pub same_status : Status → Status → Bool
same_status pending pending = true
same_status approved approved = true
same_status rejected rejected = true
same_status executing executing = true
same_status executed executed = true
same_status _ _ = false

pub record Request : Type 0 where
  pub id : ℕ
  pub created_at : ℕ
  pub tool : String
  pub arguments : String
  pub risk : ℕ
  pub reason : Reason
  pub status : Status
  pub executed_at : Option ℕ

-- The table `approvals`, and the next value of its AUTOINCREMENT key.
pub record Store : Type 0 where
  pub next_id : ℕ
  pub rows : List Request

pub data Error : Type 0 where
  database : Error  -- what the driver returns
  marshalling : Error  -- from json.Marshal
  not_found : Error  -- "get approval: …", no such row
  already_resolved : Error  -- "approval not found or already resolved"

-- `CREATE TABLE IF NOT EXISTS` on an empty database
unfoldable pub new_store : Store
new_store = record { next_id = 1; rows = [] }

abbrev pub new_request : ℕ → ℕ → String → String → ℕ → Reason → Request
new_request id now tool doc risk reason = record {
  id = id;
  created_at = now;
  tool = tool;
  arguments = doc;
  risk = risk;
  reason = reason;
  status = pending;
  executed_at = none;
}

-- INSERT INTO approvals … VALUES …
unfoldable pub insert_row : Bool → Request → Store → Result Error Request × Store
insert_row up row s =
    if up
    then (ok row, record { next_id = suc s.next_id; rows = s.rows ++ row ∷ [] })
    else (err database, s)

unfoldable pub create :
    Codec → Bool → ℕ → String → Arguments → ℕ → Reason → Store → Result Error Request × Store
unfolding insert_row
create codec up now tool arguments risk reason s = elim (codec.marshal arguments) [
  | none ↦ (err marshalling, s)
  | some doc ↦ insert_row up (new_request s.next_id now tool doc risk reason) s
]

-- `Get`: SELECT … WHERE id = ?
unfoldable pub find : ℕ → List Request → Option Request
unfolding select_row
find id rows = select_row (λ r. r.id == id) rows

unfoldable pub get : Bool → ℕ → Store → Result Error Request
unfolding find
get up id s =
    if up then elim (find id s.rows) [ none ↦ err not_found | some r ↦ ok r ] else err database

-- UPDATE approvals SET … WHERE id = ? AND status = ? AND …
abbrev pub update : (Request → Bool) → (Request → Request) → ℕ → Store → Store
update p f id s = record s { rows = update_rows (λ r. (r.id == id) && p r) f s.rows }

abbrev pub count : (Request → Bool) → ℕ → Store → ℕ
count p id s = affected (λ r. (r.id == id) && p r) s.rows

abbrev pub is_pending : Request → Bool
is_pending r = same_status r.status pending

-- status = 'APPROVED' AND executed_at IS NULL
abbrev pub is_claimable : Request → Bool
is_claimable r = same_status r.status approved && is_none r.executed_at

abbrev pub is_executing : Request → Bool
is_executing r = same_status r.status executing

abbrev pub with_status : Status → Request → Request
with_status status r = record r { status = status }

abbrev pub finished_at : ℕ → Request → Request
finished_at now r = record r { status = executed; executed_at = some now }

unfoldable pub set_status : Bool → ℕ → Status → Store → Result Error (Unit {0}) × Store
set_status up id status s =
    if up
    then (
      (if count is_pending id s == 0 then err already_resolved else ok tt),
      update is_pending (with_status status) id s,
    )
    else (err database, s)

unfoldable pub claim_execution : Bool → ℕ → Store → Result Error Bool × Store
claim_execution up id s =
    if up
    then (ok (count is_claimable id s == 1), update is_claimable (with_status executing) id s)
    else (err database, s)

unfoldable pub finish_execution : Bool → ℕ → ℕ → Store → Result Error (Unit {0}) × Store
finish_execution up now id s =
    if up then (ok tt, update is_executing (finished_at now) id s) else (err database, s)

unfoldable pub fail_execution : Bool → ℕ → Store → Result Error (Unit {0}) × Store
fail_execution up id s =
    if up then (ok tt, update is_executing (with_status approved) id s) else (err database, s)

abbrev pub is_active : Request → Bool
is_active r =
    (same_status r.status pending
      || same_status r.status approved
      || same_status r.status executing)
    && is_none r.executed_at

unfoldable pub list_pending : Bool → Store → Result Error (List Request)
list_pending up s =
    if up then ok (order_desc (λ r. r.id) (filter is_pending s.rows)) else err database

unfoldable pub list_active : Bool → Store → Result Error (List Request)
list_active up s =
    if up then ok (order_desc (λ r. r.id) (filter is_active s.rows)) else err database
