-- ===== src/Approval/Lifecycle/Rows.antt =====
-- What each statement makes of the row at one id, and the invariant of the table.
use sentrymesh.Base.{
  ℕ, subst, sym, ◌++◌, String, suc, ◌≤◌, ◌≡◌, refl, ◌≢◌, inl, inr, arith, Bool, true, false, not,
  List, [], ◌∷◌, Option, none, some, ◌==◌, if◌then◌else◌, is_none, Option-cases,
}
use sentrymesh.Sql.Laws.{
  touched, hit, IsKeyed, row_at-update_rows, row_at-key, affected-hit, update_rows-IsKeyed,
}
use sentrymesh.Sql.Order.{row_at-fresh, row_at-append, append-IsKeyed}
use sentrymesh.Json.{Arguments}
use sentrymesh.Tools.{Reason}
use sentrymesh.Approval.{
  Codec, create, insert_row, Status, approved, executing, executed, same_status, Request, Store,
  new_store, find, update, count, is_pending, is_claimable, is_executing, with_status, finished_at,
  set_status, claim_execution, finish_execution, fail_execution,
}

abbrev pub key : Request → ℕ
key r = r.id

-- Each id stands once, below the next key; a row has a time of execution exactly when executed.
abbrev pub IsStamped : Request → Type 0
IsStamped r = is_none r.executed_at ≡ not (same_status r.status executed)

pub record Inv (s : Store) : Type 0 where
  pub keyed : IsKeyed key s.next_id s.rows
  pub stamped : (k : ℕ) (r : Request) → find k s.rows ≡ some r → IsStamped r

pub new_store-Inv : Inv new_store
unfolding new_store find
new_store-Inv = record { keyed = tt; stamped = λ k r h. cc }

-- A statement's effect at any id, in terms of the row that stood there.
pub find-update :
    (p : Request → Bool) (f : Request → Request) (k id : ℕ) (s : Store)
    → ((r : Request) → (f r).id ≡ r.id)
    → find k (update p f id s).rows ≡ touched key p f id (find k s.rows)
unfolding find
find-update p f k id s keeps = row_at-update_rows key p f keeps k id s.rows

pub count-hit :
    (p : Request → Bool) (id : ℕ) (s : Store) → Inv s → count p id s ≡ hit key p (find id s.rows)
unfolding find
count-hit p id s v = affected-hit key p s.next_id id s.rows v.keyed

pub update-Inv :
    (p : Request → Bool) (f : Request → Request) (id : ℕ) (s : Store)
    → ((r : Request) → (f r).id ≡ r.id)
    → ((r : Request) → p r ≡ true → IsStamped r → IsStamped (f r))
    → Inv s
    → Inv (update p f id s)
update-Inv p f id s keeps stamps v = record {
  keyed = update_rows-IsKeyed key _ f s.next_id s.rows keeps v.keyed;
  stamped = λ k r h. stamp k r (find k s.rows) refl (find-update p f k id s keeps) h;
}
  where
    stamp :
        (k : ℕ) (r : Request) (o : Option Request)
        → find k s.rows ≡ o
        → find k (update p f id s).rows ≡ touched key p f id (find k s.rows)
        → find k (update p f id s).rows ≡ some r
        → IsStamped r
    stamp k r none e t h = ground arith
    stamp k r (some q) e t h = ground (arith, v.stamped k q e, stamps q)

pub set_status-Inv :
    (up : Bool) (id : ℕ) (status : Status) (s : Store)
    → status ≢ executed
    → Inv s
    → Inv (set_status up id status s).1
unfolding set_status
set_status-Inv true id status s h v =
    update-Inv is_pending (with_status status) id s (λ r. refl) (λ r p q. ground arith) v
set_status-Inv false id status s h v = v

pub claim_execution-Inv : (up : Bool) (id : ℕ) (s : Store) → Inv s → Inv (claim_execution up id s).1
unfolding claim_execution
claim_execution-Inv true id s v =
    update-Inv is_claimable (with_status executing) id s (λ r. refl) (λ r p q. ground arith) v
claim_execution-Inv false id s v = v

pub finish_execution-Inv :
    (up : Bool) (now id : ℕ) (s : Store) → Inv s → Inv (finish_execution up now id s).1
unfolding finish_execution
finish_execution-Inv true now id s v =
    update-Inv is_executing (finished_at now) id s (λ r. refl) (λ r p q. refl) v
finish_execution-Inv false now id s v = v

pub fail_execution-Inv : (up : Bool) (id : ℕ) (s : Store) → Inv s → Inv (fail_execution up id s).1
unfolding fail_execution
fail_execution-Inv true id s v =
    update-Inv is_executing (with_status approved) id s (λ r. refl) (λ r p q. ground arith) v
fail_execution-Inv false id s v = v

-- A created request is pending, stands under the next key, and leaves the other rows alone.
pub find-insert_row :
    (k : ℕ) (row : Request) (s : Store)
    → row.id ≡ s.next_id
    → Inv s
    → find k (insert_row true row s).1.rows ≡ (if row.id == k then some row else find k s.rows)
unfolding insert_row find
find-insert_row k row s e v =
    row_at-append key k s.rows row (subst (λ n. IsKeyed key n s.rows) (sym e) v.keyed)

pub insert_row-Inv :
    (up : Bool) (row : Request) (s : Store)
    → row.id ≡ s.next_id
    → IsStamped row
    → Inv s
    → Inv (insert_row up row s).1
unfolding insert_row
insert_row-Inv true row s e stamp v = record {
  keyed =
      subst (λ n. IsKeyed key (suc n) (s.rows ++ row ∷ [])) e
        (append-IsKeyed key s.rows row (subst (λ n. IsKeyed key n s.rows) (sym e) v.keyed));
  stamped = λ k r h. ground (arith, find-insert_row k row s e v, v.stamped k r);
}
insert_row-Inv false row s e stamp v = v

pub create-Inv :
    (codec : Codec) (up : Bool) (now : ℕ) (tool : String) (arguments : Arguments) (risk : ℕ)
    (reason : Reason) (s : Store)
    → Inv s
    → Inv (create codec up now tool arguments risk reason s).1
unfolding create
create-Inv codec up now tool arguments risk reason s v =
    elim (Option-cases (codec.marshal arguments)) [
      | inl e ↦ rw (e, create) v
      | inr (doc, e) ↦ rw (e, create) (insert_row-Inv up _ s refl refl v)
    ]

-- No row stands under the next key, or above it.
pub vacant : (k : ℕ) (s : Store) → s.next_id ≤ k → Inv s → find k s.rows ≡ none
unfolding find
vacant k s h v = row_at-fresh key s.next_id k s.rows h v.keyed

pub find_id : (k : ℕ) (rows : List Request) (r : Request) → find k rows ≡ some r → r.id ≡ k
unfolding find
find_id k rows r h = row_at-key key k rows r h
