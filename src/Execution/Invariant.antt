-- ===== src/Execution/Invariant.antt =====
-- What holds in every state that execute handlers reach together, in any interleaving.
use sentrymesh.Base.{
  ℕ, suc, ◌≤◌, ◌≡◌, refl, sym, ap, ◌∙◌, ◌≢◌, ◌⊎◌, arith, List, [], ◌∷◌, Option, none, some, ◌==◌,
  if◌then◌else◌,
}
use sentrymesh.Approval.{
  Codec, Status, pending, executing, executed, Request, Store, new_store, find,
}
use sentrymesh.Approval.Lifecycle.{
  create-kept, set_status-kept, status_of, Op, Inv, new_store-Inv, step, step-Inv,
}
use sentrymesh.Execution.{World, Call, Pc}
use sentrymesh.Execution.System.{
  System, at, Step, turn, other, Other, creation, resolution, init, Reach, start, later,
}
use sentrymesh.Execution.Turns.{
  status_at, status_of_row, holds, unrun, Turn, quiet, claims, runs, finishes, releases,
  advance-Turn, advance-Inv,
}

-- How often a tool was run for an approval.
abbrev pub count_runs : ℕ → List ℕ → ℕ
count_runs k [] = 0
count_runs k (i ∷ rest) = if i == k then suc (count_runs k rest) else count_runs k rest

pub record SysInv (w : World) (pc : ℕ → Pc) : Type 0 where
  pub table : Inv w.store
  pub held : (i k : ℕ) → holds (pc i) ≡ some k → status_at k w.store ≡ some executing
  pub unique : (i j k : ℕ) → holds (pc i) ≡ some k → holds (pc j) ≡ some k → i ≡ j
  pub fresh : (i k : ℕ) → unrun (pc i) ≡ some k → count_runs k w.runs ≡ 0
  pub logged :
      (k : ℕ)
      → count_runs k w.runs ≢ 0
      → (status_at k w.store ≡ some executing) ⊎ (status_at k w.store ≡ some executed)
  pub once : (k : ℕ) → count_runs k w.runs ≤ 1

init-SysInv : SysInv init.world init.pc
unfolding new_store find
init-SysInv = record {
  table = new_store-Inv;
  held = λ i k h. cc;
  unique = λ i j k h q. cc;
  fresh = λ i k h. cc;
  logged = λ k h. absurd (h refl);
  once = λ k. omega arith;
}

unrun-holds : (p : Pc) (k : ℕ) → unrun p ≡ some k → holds p ≡ some k
unrun-holds p k h = ground arith

module _ {w w' : World} {pc : ℕ → Pc} (inv : SysInv w pc) (i : ℕ) where
  open inv use {held, unique, fresh, logged, once}

  Turn-held :
      {p p' : Pc}
      → Turn w p w' p'
      → pc i ≡ p
      → (j k : ℕ) → holds (at pc i p' j) ≡ some k
      → status_at k w'.store ≡ some executing
  Turn-held (quiet st rs ho un) e j k h = ground (arith, st k, ho k, held i k, held j k)
  Turn-held (claims id ok st rs ho) e j k h = ground (arith, st k, held j k)
  Turn-held (runs id un ho st rs ho' un') e j k h = ground (arith, st k, held j k, held i k)
  Turn-held (finishes id ho st rs ho' un') e j k h = ground (arith, st k, held j k, unique i j k)
  Turn-held (releases id ho un st rs ho' un') e j k h = ground (arith, st k, held j k, unique i j k)

  Turn-unique :
      {p p' : Pc}
      → Turn w p w' p'
      → pc i ≡ p
      → (a b k : ℕ) → holds (at pc i p' a) ≡ some k
      → holds (at pc i p' b) ≡ some k
      → a ≡ b
  Turn-unique (quiet st rs ho un) e a b k ha hb =
      ground (arith, ho k, unique a b k, unique i b k, unique a i k)
  Turn-unique (claims id ok st rs ho) e a b k ha hb =
      ground (arith, unique a b k, held a k, held b k)
  Turn-unique (runs id un ho st rs ho' un') e a b k ha hb =
      ground (arith, unique a b k, unique i b k, unique a i k)
  Turn-unique (finishes id ho st rs ho' un') e a b k ha hb = ground (arith, unique a b k)
  Turn-unique (releases id ho un st rs ho' un') e a b k ha hb = ground (arith, unique a b k)

  Turn-fresh :
      {p p' : Pc}
      → Turn w p w' p'
      → pc i ≡ p
      → (j k : ℕ) → unrun (at pc i p' j) ≡ some k
      → count_runs k w'.runs ≡ 0
  Turn-fresh (quiet st rs ho un) e j k h = ground (arith, rs, un k, fresh i k, fresh j k)
  Turn-fresh {p' = p'} (claims id ok st rs ho) e j k h =
      ground (arith, rs, unrun-holds p' k, fresh j k, logged k)
  Turn-fresh (runs id un ho st rs ho' un') e j k h =
      ground (arith, rs, fresh j k, unrun-holds (pc j) k, unique i j k)
  Turn-fresh (finishes id ho st rs ho' un') e j k h = ground (arith, rs, fresh j k)
  Turn-fresh (releases id ho un st rs ho' un') e j k h = ground (arith, rs, fresh j k)

  Turn-logged :
      {p p' : Pc}
      → Turn w p w' p'
      → pc i ≡ p
      → (k : ℕ) → count_runs k w'.runs ≢ 0
      → (status_at k w'.store ≡ some executing) ⊎ (status_at k w'.store ≡ some executed)
  Turn-logged (quiet st rs ho un) e k h = ground (arith, rs, st k, logged k)
  Turn-logged (claims id ok st rs ho) e k h = ground (arith, rs, st k, logged k)
  Turn-logged (runs id un ho st rs ho' un') e k h = ground (arith, rs, st k, logged k, held i k)
  Turn-logged (finishes id ho st rs ho' un') e k h = ground (arith, rs, st k, logged k)
  Turn-logged (releases id ho un st rs ho' un') e k h =
      ground (arith, rs, st k, logged k, fresh i k)

  Turn-once : {p p' : Pc} → Turn w p w' p' → pc i ≡ p → (k : ℕ) → count_runs k w'.runs ≤ 1
  Turn-once (quiet st rs ho un) e k = ground (arith, rs, once k)
  Turn-once (claims id ok st rs ho) e k = ground (arith, rs, once k)
  Turn-once (runs id un ho st rs ho' un') e k = ground (arith, rs, once k, fresh i k)
  Turn-once (finishes id ho st rs ho' un') e k = ground (arith, rs, once k)
  Turn-once (releases id ho un st rs ho' un') e k = ground (arith, rs, once k)

  Turn-SysInv : {p' : Pc} → Inv w'.store → Turn w (pc i) w' p' → SysInv w' (at pc i p')
  Turn-SysInv v t = record {
    table = v;
    held = Turn-held t refl;
    unique = Turn-unique t refl;
    fresh = Turn-fresh t refl;
    logged = Turn-logged t refl;
    once = Turn-once t refl;
  }

-- The other handlers' statements leave executing and executed requests alone.
abbrev pub Busy : Option Status → Type 0
Busy o = (o ≡ some executing) ⊎ (o ≡ some executed)

Other-find :
    (s : Store) {o : Op} (k : ℕ) (r : Request)
    → Other o
    → Inv s
    → find k s.rows ≡ some r
    → r.status ≢ pending
    → find k (step s o).rows ≡ some r
unfolding step
Other-find s k r (creation codec up now tool arguments risk reason) v h n =
    create-kept codec up now tool arguments risk reason s k r v h
Other-find s k r (resolution up id verdict) v h n =
    set_status-kept up id (status_of verdict) s k r h n

pub Other-keeps :
    (s : Store) {o : Op} (k : ℕ)
    → Other o
    → Inv s
    → Busy (status_at k s)
    → status_at k (step s o) ≡ status_at k s
Other-keeps s {o} k op v b = go (find k s.rows) refl
  where
    go : (q : Option Request) → find k s.rows ≡ q → status_at k (step s o) ≡ status_at k s
    go none e = ground arith
    go (some r) e = ap status_of_row (Other-find s k r op v e (ground arith) ∙ sym e)

Other-SysInv :
    {w : World} {pc : ℕ → Pc} {o : Op}
    → Other o
    → SysInv w pc
    → SysInv (record w { store = step w.store o }) pc
Other-SysInv {w} {pc} {o} op inv = record {
  table = step-Inv w.store o inv.table;
  held = λ i k h. ground (arith, inv.held i k h, Other-keeps w.store k op inv.table);
  unique = inv.unique;
  fresh = inv.fresh;
  logged = λ k h. ground (arith, inv.logged k h, Other-keeps w.store k op inv.table);
  once = inv.once;
}

pub Step-SysInv :
    {codec : Codec} {calls : ℕ → Call} {s t : System}
    → Step codec calls s t
    → SysInv s.world s.pc
    → SysInv t.world t.pc
Step-SysInv {codec} {calls} {s} (turn i env) inv =
    Turn-SysInv inv i (advance-Inv codec env (calls i) s.world (s.pc i) inv.table)
      (advance-Turn codec env (calls i) s.world (s.pc i) inv.table (inv.held i))
Step-SysInv (other o) inv = Other-SysInv o inv

pub Reach-SysInv :
    {codec : Codec} {calls : ℕ → Call} {s : System} → Reach codec calls s → SysInv s.world s.pc
Reach-SysInv start = init-SysInv
Reach-SysInv (later r st) = Step-SysInv st (Reach-SysInv r)
