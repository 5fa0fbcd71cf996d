-- ===== src/Approval/Lifecycle/History.antt =====
-- Any sequence of the store's statements moves each request along one diagram of statuses.
use mathlib.Core.Option.{some-injective}
use sentrymesh.Base.{
  ℕ, String, ◌≡◌, refl, sym, subst, ◌⊎◌, inl, inr, arith, Bool, true, false, ◌&&◌, List, [], ◌∷◌,
  Option, none, some, ◌==◌, Option-cases, Bool-cases,
}
use sentrymesh.Json.{Arguments}
use sentrymesh.Tools.{Reason}
use sentrymesh.Sql.Laws.{touched}
use sentrymesh.Approval.{
  Codec, Status, pending, approved, rejected, executing, executed, same_status, Request, Store,
  new_request, create, insert_row, find, update, is_pending, is_claimable, is_executing,
  with_status, finished_at, set_status, claim_execution, finish_execution, fail_execution,
}
use sentrymesh.Approval.Lifecycle.Rows.{
  key, Inv, vacant, find-update, find-insert_row, create-Inv, set_status-Inv, claim_execution-Inv,
  finish_execution-Inv, fail_execution-Inv,
}

-- What the handlers resolve a request to.
pub data Verdict : Type 0 where
  approve reject : Verdict

abbrev pub status_of : Verdict → Status
status_of approve = approved
status_of reject = rejected

-- A statement, with whether the database executes it.
pub data Op : Type 0 where
  creates : Codec → Bool → ℕ → String → Arguments → ℕ → Reason → Op
  resolves : Bool → ℕ → Verdict → Op
  claims : Bool → ℕ → Op
  finishes : Bool → ℕ → ℕ → Op
  fails : Bool → ℕ → Op

unfoldable pub step : Store → Op → Store
step s (creates codec up now tool arguments risk reason) =
    (create codec up now tool arguments risk reason s).1
step s (resolves up id verdict) = (set_status up id (status_of verdict) s).1
step s (claims up id) = (claim_execution up id s).1
step s (finishes up now id) = (finish_execution up now id s).1
step s (fails up id) = (fail_execution up id s).1

unfoldable pub run : Store → List Op → Store
run s [] = s
run s (o ∷ os) = run (step s o) os

-- The diagram of statuses.
pub data Edge : Status → Status → Type 0 where
  approval : Edge pending approved
  rejection : Edge pending rejected
  claim : Edge approved executing
  finish : Edge executing executed
  release : Edge executing approved

-- All but the status and the time of execution.
abbrev pub SameCall : Request → Request → Type 0
SameCall r q =
    (r.id ≡ q.id)
    × (r.created_at ≡ q.created_at)
    × (r.tool ≡ q.tool)
    × (r.arguments ≡ q.arguments)
    × (r.risk ≡ q.risk)
    × (r.reason ≡ q.reason)

-- The row at one id before and after a statement.
pub data Moves : Option Request → Option Request → Type 0 where
  stays : {o : Option Request} → Moves o o
  created : {r : Request} → r.status ≡ pending → r.executed_at ≡ none → Moves none (some r)
  moved : {r q : Request} → Edge r.status q.status → SameCall r q → Moves (some r) (some q)

pub step-Inv : (s : Store) (o : Op) → Inv s → Inv (step s o)
unfolding step
step-Inv s (creates codec up now tool arguments risk reason) v =
    create-Inv codec up now tool arguments risk reason s v
step-Inv s (resolves up id approve) v = set_status-Inv up id approved s (λ e. cc) v
step-Inv s (resolves up id reject) v = set_status-Inv up id rejected s (λ e. cc) v
step-Inv s (claims up id) v = claim_execution-Inv up id s v
step-Inv s (finishes up now id) v = finish_execution-Inv up now id s v
step-Inv s (fails up id) v = fail_execution-Inv up id s v

-- The invariant of the table holds after every sequence of statements on a new store.
pub run-Inv : (s : Store) (os : List Op) → Inv s → Inv (run s os)
unfolding run
run-Inv s [] v = v
run-Inv s (o ∷ os) v = run-Inv (step s o) os (step-Inv s o v)

-- A guarded update moves a row if its guard implies an edge.
update-Moves :
    (p : Request → Bool) (f : Request → Request) (k id : ℕ) (s : Store)
    → ((r : Request) → p r ≡ true → Edge r.status (f r).status)
    → ((r : Request) → SameCall r (f r))
    → Moves (find k s.rows) (find k (update p f id s).rows)
update-Moves p f k id s edge same =
    rw (find-update p f k id s (λ r. sym (same r).0)) (go (find k s.rows))
  where
    go : (o : Option Request) → Moves o (touched key p f id o)
    go none = stays
    go (some r) = elim (Bool-cases ((r.id == id) && p r)) [
      | inl e ↦ rw e (moved (edge r (ground arith)) (same r))
      | inr e ↦ rw e stays
    ]

same_status-eq : (a b : Status) → same_status a b ≡ true → a ≡ b
same_status-eq a b h = ground arith

Edge-of : (a b c : Status) → Edge a c → same_status b a ≡ true → Edge b c
Edge-of a b c e h = subst (λ s. Edge s c) (sym (same_status-eq b a h)) e

same_call : (r : Request) → SameCall r r
same_call r = (refl, refl, refl, refl, refl, refl)

insert_row-Moves :
    (k : ℕ) (up : Bool) (row : Request) (s : Store)
    → row.id ≡ s.next_id
    → row.status ≡ pending
    → row.executed_at ≡ none
    → Inv s
    → Moves (find k s.rows) (find k (insert_row up row s).1.rows)
insert_row-Moves k false row s e p x v = unfold insert_row in stays
insert_row-Moves k true row s e p x v = elim (Bool-cases (row.id == k)) [
  | inl same ↦ rw (find-insert_row k row s e v, same, vacant k s (ground arith) v) (created p x)
  | inr other ↦ rw (find-insert_row k row s e v, other) stays
]

create-Moves :
    (codec : Codec) (up : Bool) (now : ℕ) (tool : String) (arguments : Arguments) (risk : ℕ)
    (reason : Reason) (s : Store) (k : ℕ)
    → Inv s
    → Moves (find k s.rows) (find k (create codec up now tool arguments risk reason s).1.rows)
unfolding create
create-Moves codec up now tool arguments risk reason s k v =
    elim (Option-cases (codec.marshal arguments)) [
      | inl e ↦ rw (e, create) stays
      | inr (doc, e) ↦
          rw (e, create)
            (insert_row-Moves k up (new_request s.next_id now tool doc risk reason) s refl refl refl
              v)
    ]

-- One statement takes the request at any id along one edge of the diagram, with its call
-- unchanged, or creates it pending, or leaves it as it is.
pub step-Moves :
    (s : Store) (o : Op) (k : ℕ) → Inv s → Moves (find k s.rows) (find k (step s o).rows)
unfolding step set_status claim_execution finish_execution fail_execution
step-Moves s (creates codec up now tool arguments risk reason) k v =
    create-Moves codec up now tool arguments risk reason s k v
step-Moves s (resolves true id approve) k v =
    update-Moves is_pending (with_status approved) k id s
      (λ r h. Edge-of pending r.status approved approval h) same_call
step-Moves s (resolves true id reject) k v =
    update-Moves is_pending (with_status rejected) k id s
      (λ r h. Edge-of pending r.status rejected rejection h) same_call
step-Moves s (claims true id) k v =
    update-Moves is_claimable (with_status executing) k id s
      (λ r h. Edge-of approved r.status executing claim (ground arith)) same_call
step-Moves s (finishes true now id) k v =
    update-Moves is_executing (finished_at now) k id s
      (λ r h. Edge-of executing r.status executed finish h) same_call
step-Moves s (fails true id) k v =
    update-Moves is_executing (with_status approved) k id s
      (λ r h. Edge-of executing r.status approved release h) same_call
step-Moves s (resolves false id verdict) k v = stays
step-Moves s (claims false id) k v = stays
step-Moves s (finishes false now id) k v = stays
step-Moves s (fails false id) k v = stays

no-Edge : {a b : Status} → Edge a b → (a ≡ rejected) ⊎ (a ≡ executed) → ⊥
no-Edge approval t = ground arith
no-Edge rejection t = ground arith
no-Edge claim t = ground arith
no-Edge finish t = ground arith
no-Edge release t = ground arith

-- No edge leaves a rejected or an executed request.
terminal_stays :
    {a b : Option Request}
    → Moves a b
    → {r : Request} → a ≡ some r
    → (r.status ≡ rejected) ⊎ (r.status ≡ executed)
    → b ≡ some r
terminal_stays stays e t = e
terminal_stays (created p x) e t = cc
terminal_stays (moved {r = p} edge same) {r} e t = absurd (
    no-Edge edge (
      subst (λ (q : Request). (q.status ≡ rejected) ⊎ (q.status ≡ executed))
        (sym (some-injective p r e)) t))

-- A rejected or executed request keeps its row, the time of execution included, under every
-- later sequence of statements.
pub terminal_absorbs :
    (s : Store) (os : List Op) (k : ℕ) (r : Request)
    → Inv s
    → find k s.rows ≡ some r
    → (r.status ≡ rejected) ⊎ (r.status ≡ executed)
    → find k (run s os).rows ≡ some r
unfolding run
terminal_absorbs s [] k r v h t = h
terminal_absorbs s (o ∷ os) k r v h t =
    terminal_absorbs (step s o) os k r (step-Inv s o v) (terminal_stays (step-Moves s o k v) h t) t
