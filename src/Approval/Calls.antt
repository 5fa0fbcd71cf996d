-- ===== src/Approval/Calls.antt =====
-- Calls of the interface Repository of gateway/internal/approval/repository.go, served by either store.
use mathlib.Core.Option
use sentrymesh.Base.{ℕ, String, Bool, true, ◌≡◌, List, [], ◌∷◌, map, Option, some, value}
use sentrymesh.Json.{Arguments}
use sentrymesh.Tools.{Reason}
use sentrymesh.Approval
use sentrymesh.Approval.{
  Codec, Status, approved, executing, Request, Store, Error, update, count, find, is_pending,
  is_claimable, is_executing, is_active, with_status, finished_at, database, already_resolved,
  not_found, new_request,
}
use sentrymesh.Approval.Postgres
use sentrymesh.Approval.Postgres.{Jsonb, canonical, Failure, plain, not_executing}

-- A method of Repository with its arguments, whether the database answers, and the time.
pub data Call : Type 0 where
  creates : Bool → ℕ → String → Arguments → ℕ → Reason → Call
  gets : Bool → ℕ → Call
  resolves : Bool → ℕ → Status → Call
  claims : Bool → ℕ → Call
  finishes : Bool → ℕ → ℕ → Call
  fails : Bool → ℕ → Call
  lists_pending lists_active : Bool → Call

-- What a caller sees of the results.
pub data Answer : Type 0 where
  created : Option Request → Answer
  request : Option Request → Answer
  changes : Option (Unit {0}) → Answer
  claimed : Option Bool → Answer
  shows : Option (List Request) → Answer

module _ (codec : Codec) (json : Jsonb) where
  unfoldable pub serve : Store → Call → Answer × Store
  serve s (creates up now tool arguments risk reason) =
      let (r, after) = Approval.create codec up now tool arguments risk reason s in
      (created (value r), after)
  serve s (gets up id) = (request (value (Approval.get up id s)), s)
  serve s (resolves up id status) =
      let (r, after) = Approval.set_status up id status s in (changes (value r), after)
  serve s (claims up id) =
      let (r, after) = Approval.claim_execution up id s in (claimed (value r), after)
  serve s (finishes up now id) =
      let (r, after) = Approval.finish_execution up now id s in (changes (value r), after)
  serve s (fails up id) =
      let (r, after) = Approval.fail_execution up id s in (changes (value r), after)
  serve s (lists_pending up) = (shows (value (Approval.list_pending up s)), s)
  serve s (lists_active up) = (shows (value (Approval.list_active up s)), s)

  unfoldable pub serve_postgres : Store → Call → Answer × Store
  serve_postgres s (creates up now tool arguments risk reason) =
      let (r, after) = Postgres.create codec json up now tool arguments risk reason s in
      (created (value r), after)
  serve_postgres s (gets up id) = (request (value (Postgres.get up id s)), s)
  serve_postgres s (resolves up id status) =
      let (r, after) = Postgres.set_status up id status s in (changes (value r), after)
  serve_postgres s (claims up id) =
      let (r, after) = Postgres.claim_execution up id s in (claimed (value r), after)
  serve_postgres s (finishes up now id) =
      let (r, after) = Postgres.finish_execution up now id s in (changes (value r), after)
  serve_postgres s (fails up id) =
      let (r, after) = Postgres.fail_execution up id s in (changes (value r), after)
  serve_postgres s (lists_pending up) = (shows (value (Postgres.list_pending up s)), s)
  serve_postgres s (lists_active up) = (shows (value (Postgres.list_active up s)), s)

  unfoldable pub answers : Store → List Call → List Answer
  answers s [] = []
  answers s (c ∷ cs) = (serve s c).0 ∷ answers (serve s c).1 cs

  unfoldable pub answers_postgres : Store → List Call → List Answer
  answers_postgres s [] = []
  answers_postgres s (c ∷ cs) = (serve_postgres s c).0 ∷ answers_postgres (serve_postgres s c).1 cs

  -- An answer with the arguments that a JSONB column gives back.
  abbrev pub reread : Answer → Answer
  reread (request r) = request (Option.map (canonical json) r)
  reread (shows rs) = shows (Option.map (map (canonical json)) rs)
  reread answer = answer

  -- The PostgreSQL table with the rows of a SQLite table.
  abbrev pub stored : Store → Store
  stored s = record { next_id = s.next_id; rows = map (canonical json) s.rows }

  -- The column takes the arguments, and only an execution that was claimed is ended.
  abbrev pub IsPlain : Store → Call → Type 0
  IsPlain s (creates up now tool arguments risk reason) =
      (doc : String) → codec.marshal arguments ≡ some doc → json.accepts doc ≡ true
  IsPlain s (finishes up now id) = count is_executing id s ≡ 1
  IsPlain s (fails up id) = count is_executing id s ≡ 1
  IsPlain s _ = Unit

  abbrev pub ArePlain : Store → List Call → Type 0
  ArePlain s [] = Unit
  ArePlain s (c ∷ cs) = IsPlain s c × ArePlain (serve s c).1 cs
