-- ===== src/Approval/Agreement.antt =====
-- The two approval stores answer alike: gateway/internal/approval/store.go and postgres.go on tables
-- with the same rows, but for how a JSONB column writes the arguments.
use sentrymesh.Base.{
  ℕ, suc, String, Bool, true, false, ◌&&◌, ◌≡◌, refl, sym, ap, ◌∙◌, List, [], ◌∷◌, map, some, ◌==◌,
  if◌then◌else◌, ok, err, value, Option-cases, Bool-cases, inl, inr, filter,
}
use sentrymesh.Json.{Arguments}
use sentrymesh.Tools.{Reason}
use sentrymesh.Sql.{select_row, order_desc}
use sentrymesh.Sql.Images.{
  select_row-map, update_rows-map, affected-map, order_desc-map, map-append_one,
}
use sentrymesh.Approval
use sentrymesh.Approval.{
  Codec, Status, approved, executing, Request, Store, Error, update, count, find, is_pending,
  is_claimable, is_executing, is_active, with_status, finished_at, database, already_resolved,
  not_found, new_request,
}
use sentrymesh.Approval.Postgres
use sentrymesh.Approval.Postgres.{Jsonb, canonical, Failure, plain, not_executing}
use sentrymesh.Approval.Calls.{
  Call, creates, gets, resolves, claims, finishes, fails, lists_pending, lists_active, Answer,
  created, changes, claimed, shows, serve, serve_postgres, answers, answers_postgres, reread,
  stored, IsPlain, ArePlain,
}

module _ (codec : Codec) (json : Jsonb) where
  update-stored :
      (p : Request → Bool) (f : Request → Request) (id : ℕ) (s : Store)
      → ((r : Request) → p (canonical json r) ≡ p r)
      → ((r : Request) → f (canonical json r) ≡ canonical json (f r))
      → update p f id (stored codec json s) ≡ stored codec json (update p f id s)
  update-stored p f id s alike moves =
      ap (λ rows. record { next_id = s.next_id; rows = rows })
        (update_rows-map (canonical json) (λ r. (r.id == id) && p r) (λ r. (r.id == id) && p r) f f
          (λ r. ap (λ b. (r.id == id) && b) (alike r)) moves s.rows)

  count-stored :
      (p : Request → Bool) (id : ℕ) (s : Store)
      → ((r : Request) → p (canonical json r) ≡ p r)
      → count p id (stored codec json s) ≡ count p id s
  count-stored p id s alike =
      affected-map (canonical json) (λ r. (r.id == id) && p r) (λ r. (r.id == id) && p r)
        (λ r. ap (λ b. (r.id == id) && b) (alike r)) s.rows

  filter-stored :
      (p : Request → Bool) (rows : List Request)
      → ((r : Request) → p (canonical json r) ≡ p r)
      → filter p (map (canonical json) rows) ≡ map (canonical json) (filter p rows)
  filter-stored p [] alike = refl
  filter-stored p (r ∷ rows) alike = elim (Bool-cases (p r)) [
    | inl e ↦ rw (alike r) (rw (e, filter-stored p rows alike) refl)
    | inr e ↦ rw (alike r) (rw (e, filter-stored p rows alike) refl)
  ]

  sorted-stored :
      (p : Request → Bool) (s : Store)
      → ((r : Request) → p (canonical json r) ≡ p r)
      → order_desc (λ (r : Request). r.id) (filter p (stored codec json s).rows)
        ≡ map (canonical json) (order_desc (λ (r : Request). r.id) (filter p s.rows))
  sorted-stored p s alike =
      ap (order_desc (λ (r : Request). r.id)) (filter-stored p s.rows alike)
      ∙ order_desc-map (canonical json) (λ (r : Request). r.id) (λ (r : Request). r.id) (λ r. refl)
          (filter p s.rows)

  -- How the two stores' answers to one call and their next tables compare.
  abbrev Alike : Answer × Store → Answer × Store → Type 0
  Alike mine theirs = (theirs.0 ≡ reread codec json mine.0) × (theirs.1 ≡ stored codec json mine.1)

  insert_row-stored :
      (up : Bool) (row : Request) (s : Store)
      → json.accepts row.arguments ≡ true
      → let (r, after) = Approval.insert_row up row s in
        let (q, later) = Postgres.insert_row json up row (stored codec json s) in
        Alike (created (value r), after) (created (value q), later)
  unfolding Approval.insert_row Postgres.insert_row
  insert_row-stored false row s h = (refl, refl)
  insert_row-stored true row s h = rw h (
    refl,
    ap (λ rows. record { next_id = suc s.next_id; rows = rows })
        (sym (map-append_one (canonical json) s.rows row)),
  )

  resolved-alike :
      (b : Bool)
      → value (if b then err (plain already_resolved) else ok (tt {0}))
        ≡ value (if b then err already_resolved else ok (tt {0}))
  resolved-alike true = refl
  resolved-alike false = refl

  serve-creates :
      (up : Bool) (now : ℕ) (tool : String) (arguments : Arguments) (risk : ℕ) (reason : Reason)
      (s : Store)
      → IsPlain codec json s (creates up now tool arguments risk reason)
      → Alike (serve codec json s (creates up now tool arguments risk reason)) (
          serve_postgres codec json
            (stored codec json s)
            (creates up now tool arguments risk reason))
  unfolding serve serve_postgres Approval.create Postgres.create
  serve-creates up now tool arguments risk reason s plainly =
      elim (Option-cases (codec.marshal arguments)) [
        | inl e ↦ rw (e, serve, serve_postgres, Approval.create, Postgres.create) (refl, refl)
        | inr (doc, e) ↦
            rw (e, serve, serve_postgres, Approval.create, Postgres.create)
              (insert_row-stored up (new_request s.next_id now tool doc risk reason) s
                (plainly doc e))
      ]

  serve-gets :
      (up : Bool) (id : ℕ) (s : Store)
      → Alike
          (serve codec json s (gets up id))
          (serve_postgres codec json (stored codec json s) (gets up id))
  unfolding serve serve_postgres Approval.get Postgres.get find
  serve-gets false id s = (refl, refl)
  serve-gets true id s =
      let there =
        select_row-map (canonical json) (λ r. r.id == id) (λ r. r.id == id) (λ r. refl) s.rows in
      elim (Option-cases (select_row (λ (r : Request). r.id == id) s.rows)) [
        | inl e ↦ rw there (rw e (refl, refl))
        | inr (r, e) ↦ rw there (rw e (refl, refl))
      ]

  serve-resolves :
      (up : Bool) (id : ℕ) (status : Status) (s : Store)
      → Alike
          (serve codec json s (resolves up id status))
          (serve_postgres codec json (stored codec json s) (resolves up id status))
  unfolding serve serve_postgres Approval.set_status Postgres.set_status
  serve-resolves false id status s = (refl, refl)
  serve-resolves true id status s = (
    ap (λ n. changes (value (if n == 0 then err (plain already_resolved) else ok (tt {0}))))
          (count-stored is_pending id s (λ r. refl))
        ∙ ap changes (resolved-alike (count is_pending id s == 0)),
    update-stored is_pending (with_status status) id s (λ r. refl) (λ r. refl),
  )

  serve-claims :
      (up : Bool) (id : ℕ) (s : Store)
      → Alike
          (serve codec json s (claims up id))
          (serve_postgres codec json (stored codec json s) (claims up id))
  unfolding serve serve_postgres Approval.claim_execution Postgres.claim_execution
  serve-claims false id s = (refl, refl)
  serve-claims true id s = (
    ap (λ n. claimed (some (n == 1))) (count-stored is_claimable id s (λ r. refl)),
    update-stored is_claimable (with_status executing) id s (λ r. refl) (λ r. refl),
  )

  serve-finishes :
      (up : Bool) (now id : ℕ) (s : Store)
      → count is_executing id s ≡ 1
      → Alike
          (serve codec json s (finishes up now id))
          (serve_postgres codec json (stored codec json s) (finishes up now id))
  unfolding serve serve_postgres Approval.finish_execution Postgres.finish_execution
  serve-finishes false now id s h = (refl, refl)
  serve-finishes true now id s h = (
    ap (λ n. changes (value (if n == 1 then ok tt else err not_executing)))
        (count-stored is_executing id s (λ r. refl) ∙ h),
    update-stored is_executing (finished_at now) id s (λ r. refl) (λ r. refl),
  )

  serve-fails :
      (up : Bool) (id : ℕ) (s : Store)
      → count is_executing id s ≡ 1
      → Alike
          (serve codec json s (fails up id))
          (serve_postgres codec json (stored codec json s) (fails up id))
  unfolding serve serve_postgres Approval.fail_execution Postgres.fail_execution
  serve-fails false id s h = (refl, refl)
  serve-fails true id s h = (
    ap (λ n. changes (value (if n == 1 then ok tt else err not_executing)))
        (count-stored is_executing id s (λ r. refl) ∙ h),
    update-stored is_executing (with_status approved) id s (λ r. refl) (λ r. refl),
  )

  serve-lists_pending :
      (up : Bool) (s : Store)
      → Alike
          (serve codec json s (lists_pending up))
          (serve_postgres codec json (stored codec json s) (lists_pending up))
  unfolding serve serve_postgres Approval.list_pending Postgres.list_pending Postgres.list
  serve-lists_pending false s = (refl, refl)
  serve-lists_pending true s =
      (ap (λ l. shows (some l)) (sorted-stored is_pending s (λ r. refl)), refl)

  serve-lists_active :
      (up : Bool) (s : Store)
      → Alike
          (serve codec json s (lists_active up))
          (serve_postgres codec json (stored codec json s) (lists_active up))
  unfolding serve serve_postgres Approval.list_active Postgres.list_active Postgres.list
  serve-lists_active false s = (refl, refl)
  serve-lists_active true s =
      (ap (λ l. shows (some l)) (sorted-stored is_active s (λ r. refl)), refl)

  serve-stored :
      (s : Store) (c : Call)
      → IsPlain codec json s c
      → Alike (serve codec json s c) (serve_postgres codec json (stored codec json s) c)
  serve-stored s (creates up now tool arguments risk reason) h =
      serve-creates up now tool arguments risk reason s h
  serve-stored s (gets up id) h = serve-gets up id s
  serve-stored s (resolves up id status) h = serve-resolves up id status s
  serve-stored s (claims up id) h = serve-claims up id s
  serve-stored s (finishes up now id) h = serve-finishes up now id s h
  serve-stored s (fails up id) h = serve-fails up id s h
  serve-stored s (lists_pending up) h = serve-lists_pending up s
  serve-stored s (lists_active up) h = serve-lists_active up s

  -- From tables with the same rows the two stores give the same answers to any sequence of calls, but
  -- that arguments are read back as a JSONB column writes them. The column takes the arguments of
  -- each creation, and FinishExecution and FailExecution are called only for a request that is
  -- executing.
  pub answers_postgres-agree :
      (s : Store) (cs : List Call)
      → ArePlain codec json s cs
      → answers_postgres codec json (stored codec json s) cs
        ≡ map (reread codec json) (answers codec json s cs)
  unfolding answers answers_postgres
  answers_postgres-agree s [] h = refl
  answers_postgres-agree s (c ∷ cs) (h, more) =
      let (answer, after) = serve-stored s c h in
      ap
        (λ a.
          a ∷ answers_postgres codec json (serve_postgres codec json (stored codec json s) c).1 cs)
        answer
      ∙ ap (λ t. reread codec json (serve codec json s c).0 ∷ answers_postgres codec json t cs)
          after
      ∙ ap (λ rest. reread codec json (serve codec json s c).0 ∷ rest)
          (answers_postgres-agree (serve codec json s c).1 cs more)

  -- They differ where nothing is executing: SQLite's FinishExecution answers without an error, and
  -- PostgreSQL's with one.
  pub finish_execution-differs :
      (now id : ℕ) (s : Store)
      → count is_executing id s ≡ 0
      → ((Approval.finish_execution true now id s).0 ≡ ok tt)
        × ((Postgres.finish_execution true now id (stored codec json s)).0 ≡ err not_executing)
  unfolding Approval.finish_execution Postgres.finish_execution
  finish_execution-differs now id s h = (
    refl,
    ap (λ n. if n == 1 then ok tt else err not_executing)
        (count-stored is_executing id s (λ r. refl) ∙ h),
  )
