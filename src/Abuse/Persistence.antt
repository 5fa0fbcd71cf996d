-- ===== src/Abuse/Persistence.antt =====
-- What the database of the abuse states keeps over a restart and over a reload
-- (gateway/internal/abuse/tracker.go).
use sentrymesh.Base.{
  ℕ, String, Bool, true, false, List, [], ◌∷◌, All, none, some, lookup, str_eq, ltb, ◌≡◌, ◌⊎◌, refl,
  subst, ap, sym, ◌∙◌, arith, eq_iff, Option-cases, Bool-cases, inl, inr, if_elim,
  lookup-insert_self,
}
use mathlib.Core.Bool.{true≢false}
use sentrymesh.Abuse.{
  Repository, IsFaithful, Config, State, Tracker, state_of, stored_of, apply_decay, persist, commit,
  charged, cooled, starts, add, check, score, register_key, new_tracker,
}
use sentrymesh.Abuse.Commit.{commit-key_ids, lookup-commit_self, lookup-commit_ne}
use sentrymesh.Abuse.Cooldown.{Op, adds, checks, reads, step, run}

state_of-stored_of : (id : ℕ) (s : State) → state_of (stored_of id s) ≡ s
state_of-stored_of id s = ground arith

module _ (r : Repository) where
  -- What the tracker knows of a key is what the database holds for it.
  abbrev pub IsSaved : String → ℕ → Tracker r → Type 0
  IsSaved key id t =
      (db : r.Db) × (s : State) × (t.store ≡ some db)
      × (lookup key t.states ≡ some s)
      × (r.load true db id ≡ some (stored_of id s))

  -- The key is registered under an id, and is the only one that is.
  abbrev pub IsOwner : String → ℕ → Tracker r → Type 0
  IsOwner key id t =
      (lookup key t.key_ids ≡ some id)
      × ((k : String) → lookup k t.key_ids ≡ some id → str_eq k key ≡ true)

  commit-store :
      (up : Bool) (key : String) (id : ℕ) (s : State) (t : Tracker r) (db : r.Db)
      → t.store ≡ some db
      → lookup key t.key_ids ≡ some id
      → (commit r up key s t).store ≡ some (r.save up db (stored_of id s))
  unfolding commit persist
  commit-store up key id s t db stored known = ground arith

  commit-store_unknown :
      (up : Bool) (key : String) (s : State) (t : Tracker r)
      → lookup key t.key_ids ≡ none
      → (commit r up key s t).store ≡ t.store
  unfolding commit persist
  commit-store_unknown up key s t unknown = ground arith

  -- A registered key is reloaded from what the database holds.
  pub register_key-reloads :
      (key : String) (id : ℕ) (t : Tracker r) (db : r.Db) (s : State)
      → t.store ≡ some db
      → r.load true db id ≡ some (stored_of id s)
      → lookup key (register_key r true key id t).states ≡ some s
  unfolding register_key
  register_key-reloads key id t db s stored held =
      rw (register_key, stored, held, state_of-stored_of id s) (lookup-insert_self key s t.states)

  commit_self-IsSaved :
      (key : String) (id : ℕ) (s : State) (t : Tracker r) (db : r.Db)
      → IsFaithful r
      → lookup key t.key_ids ≡ some id
      → t.store ≡ some db
      → IsSaved key id (commit r true key s t)
  commit_self-IsSaved key id s t db f known stored = (
    r.save true db (stored_of id s),
    s,
    commit-store true key id s t db stored known,
    lookup-commit_self r true key s t,
    f.load-save_self db (stored_of id s),
  )

  commit-IsSaved :
      (key k : String) (id : ℕ) (s : State) (t : Tracker r)
      → IsFaithful r
      → IsOwner key id t
      → IsSaved key id t
      → IsSaved key id (commit r true k s t)
  commit-IsSaved key k id s t f own h = elim (Bool-cases (str_eq k key)) [
    | inl same ↦
        subst (λ x. IsSaved key id (commit r true x s t)) (sym ((eq_iff k key).0 same))
          (commit_self-IsSaved key id s t h.0 f own.0 h.2)
    | inr apart ↦ elim (Option-cases (lookup k t.key_ids)) [
      | inl unknown ↦ (
        h.0,
        h.1,
        commit-store_unknown true k s t unknown ∙ h.2,
        lookup-commit_ne r true k key s t apart ∙ h.3,
        h.4,
      )
      | inr known ↦ (
        r.save true h.0 (stored_of known.0 s),
        h.1,
        commit-store true k known.0 s t h.0 h.2 known.1,
        lookup-commit_ne r true k key s t apart ∙ h.3,
        f.load-save_ne h.0 (stored_of known.0 s) id
              (λ e. true≢false (sym (own.1 k (known.1 ∙ ap some e)) ∙ apart))
            ∙ h.4,
      )
    ]
  ]

  -- Whether the database answers the operation.
  abbrev pub answers : Op → Bool
  answers (adds up key points now) = up
  answers (checks up key now) = up
  answers (reads up key now) = up

  abbrev pub subject : Op → String
  subject (adds up key points now) = key
  subject (checks up key now) = key
  subject (reads up key now) = key

  -- An operation writes one state of its key, or nothing.
  abbrev Writes : Op → Tracker r → Tracker r → Type 0
  Writes o t t' = (t' ≡ t) ⊎ ((s : State) × (t' ≡ commit r (answers o) (subject o) s t))

  step-Writes : (t : Tracker r) (o : Op) → Writes o t (step r t o)
  unfolding step add check score
  step-Writes t (adds up k points now) =
      if_elim (λ (x : (ℕ × ℕ × Bool) × Tracker r). Writes (adds up k points now) t x.1)
        (starts r k points now t) (λ e. inr (cooled r k points now t, refl))
        (λ e. inr (charged r k points now t, refl))
  step-Writes t (checks up k now) = elim (Option-cases (lookup k t.states)) [
    | inl absent ↦ rw (absent, step, check) (inl refl)
    | inr found ↦
        rw (found.1, step, check)
          (let s : State = apply_decay t.config found.0 now in
            if_elim (λ (x : (Bool × ℕ × ℕ) × Tracker r). Writes (checks up k now) t x.1)
              (ltb now s.cooldown_until) (λ e. inr (s, refl))
              (λ e. inr (record s { cooldown_until = 0 }, refl)))
  ]
  step-Writes t (reads up k now) = elim (Option-cases (lookup k t.states)) [
    | inl absent ↦ rw (absent, step, score) (inl refl)
    | inr found ↦ rw (found.1, step, score) (inr (apply_decay t.config found.0 now, refl))
  ]

  step-key_ids : (t : Tracker r) (o : Op) → (step r t o).key_ids ≡ t.key_ids
  step-key_ids t o = elim (step-Writes t o) [
    | inl same ↦ ap (λ x. x.key_ids) same
    | inr wrote ↦ ap (λ x. x.key_ids) wrote.1 ∙ commit-key_ids r (answers o) (subject o) wrote.0 t
  ]

  step-IsOwner :
      (key : String) (id : ℕ) (t : Tracker r) (o : Op)
      → IsOwner key id t
      → IsOwner key id (step r t o)
  step-IsOwner key id t o own =
      subst
        (λ ids.
          (lookup key ids ≡ some id)
          × ((k : String) → lookup k ids ≡ some id → str_eq k key ≡ true))
        (sym (step-key_ids t o)) own

  step-IsSaved :
      (key : String) (id : ℕ) (t : Tracker r) (o : Op)
      → IsFaithful r
      → answers o ≡ true
      → IsOwner key id t
      → IsSaved key id t
      → IsSaved key id (step r t o)
  step-IsSaved key id t o f up own h = elim (step-Writes t o) [
    | inl same ↦ subst (λ x. IsSaved key id x) (sym same) h
    | inr wrote ↦
        subst (λ x. IsSaved key id x)
          (sym (wrote.1 ∙ ap (λ b. commit r b (subject o) wrote.0 t) up))
          (commit-IsSaved key (subject o) id wrote.0 t f own h)
  ]

  run-IsSaved :
      (key : String) (id : ℕ) (t : Tracker r) (os : List Op)
      → IsFaithful r
      → All (λ o. answers o ≡ true) os
      → IsOwner key id t
      → IsSaved key id t
      → IsSaved key id (run r t os)
  unfolding run
  run-IsSaved key id t [] f up own h = h
  run-IsSaved key id t (o ∷ os) f up own h =
      run-IsSaved key id (step r t o) os f up.1 (step-IsOwner key id t o own)
        (step-IsSaved key id t o f up.0 own h)

  add-IsSaved :
      (key : String) (id points now : ℕ) (t : Tracker r) (db : r.Db)
      → IsFaithful r
      → lookup key t.key_ids ≡ some id
      → t.store ≡ some db
      → IsSaved key id (step r t (adds true key points now))
  unfolding step add
  add-IsSaved key id points now t db f known stored =
      if_elim (λ (x : (ℕ × ℕ × Bool) × Tracker r). IsSaved key id x.1) (starts r key points now t)
        (λ e. commit_self-IsSaved key id (cooled r key points now t) t db f known stored)
        (λ e. commit_self-IsSaved key id (charged r key points now t) t db f known stored)

  -- Nothing that the tracker knows of a key is lost by a restart: after a charge of a registered key
  -- and any operations on any keys, all answered by the database, a new tracker over the database
  -- that registers the key under its id has the state that the old one has for it. The repository
  -- is faithful, and no other key has the id.
  pub restart_restores :
      (f : IsFaithful r) (config : Config) (key : String) (id points now : ℕ) (t : Tracker r)
      (db : r.Db) (os : List Op)
      → t.store ≡ some db
      → IsOwner key id t
      → All (λ o. answers o ≡ true) os
      → let t' = run r t (adds true key points now ∷ os) in
        (s : State) × (lookup key t'.states ≡ some s)
        × (lookup key (register_key r true key id (new_tracker r config t'.store)).states ≡ some s)
  unfolding new_tracker run
  restart_restores f config key id points now t db os stored own up =
      let o = adds true key points now in
      let t' = run r t (o ∷ os) in
      let owner : IsOwner key id (step r t o) = step-IsOwner key id t o own in
      let h : IsSaved key id t' =
        run-IsSaved key id (step r t o) os f up owner
          (add-IsSaved key id points now t db f own.0 stored) in
      (h.1, h.3, register_key-reloads key id (new_tracker r config t'.store) h.0 h.1 h.2 h.4)

  add-store_down :
      (key : String) (id points now : ℕ) (t : Tracker r) (db : r.Db)
      → IsFaithful r
      → lookup key t.key_ids ≡ some id
      → t.store ≡ some db
      → (add r false key points now t).1.store ≡ some db
  unfolding add
  add-store_down key id points now t db f known stored =
      if_elim (λ (x : (ℕ × ℕ × Bool) × Tracker r). x.1.store ≡ some db) (starts r key points now t)
        (λ e. down (cooled r key points now t)) (λ e. down (charged r key points now t))
    where
      down : (s : State) → (commit r false key s t).store ≡ some db
      down s =
          commit-store false key id s t db stored known ∙ ap some (f.save_down db (stored_of id s))

  -- A charge that the database does not take is forgotten at the next registration of the key that
  -- it answers: the tracker then has the state from before the charge. The repository is faithful, and it had saved the key's state.
  pub register_key-forgets :
      (f : IsFaithful r) (key : String) (id points now : ℕ) (t : Tracker r)
      → lookup key t.key_ids ≡ some id
      → IsSaved key id t
      → lookup key (register_key r true key id (add r false key points now t).1).states
        ≡ lookup key t.states
  register_key-forgets f key id points now t known h =
      register_key-reloads key id (add r false key points now t).1 h.0 h.1
        (add-store_down key id points now t h.0 f known h.2) h.4
      ∙ sym h.3
