-- ===== src/Abuse.antt =====
-- gateway/internal/abuse/tracker.go: the abuse score and the cooldown of each API key, over the
-- repository of abuse/repository.go, an interface that abuse/store.go implements (Abuse/Store).
-- A time counts nanoseconds from Go's zero time, so 0 is the time that IsZero tests for. Every
-- operation takes the time that it reads, and `up`, whether the repository's database answers.
-- Durations of the configuration are not negative, as main.go passes them, and the int score is a
-- natural number without an upper bound.
pub mod Decay
pub mod Commit
pub mod Cooldown
pub mod Persistence
pub mod Store
pub mod Postgres
mod Tests
use sentrymesh.Base.{
  sub, ℕ, ◌+◌, ◌-◌, ◌*◌, ◌/◌, ◌^◌, min, String, Bool, true, false, not, ◌&&◌, [], Option, none,
  some, StringMap, lookup, insert, ltb, leb, ◌==◌, if◌then◌else◌, ◌≡◌, ◌≢◌,
}

pub record StoredState : Type 0 where
  pub key_id : ℕ
  pub score : ℕ
  pub last_updated : ℕ
  pub cooldown_until : Option ℕ

-- `Load` and `Save`, with the error of a load as `none` and that of a save, which the tracker
-- ignores, as the database that it leaves.
pub record Repository : Type 1 where
  pub Db : Type 0
  pub load : Bool → Db → ℕ → Option StoredState
  pub save : Bool → Db → StoredState → Db

-- What the tracker relies on: a state that was saved is what a load gives back, for its key alone,
-- and a database that does not answer neither gives nor changes anything.
pub record IsFaithful (r : Repository) : Type 0 where
  pub load-save_self :
      (db : r.Db) (s : StoredState) → r.load true (r.save true db s) s.key_id ≡ some s
  pub load-save_ne :
      (db : r.Db) (s : StoredState) (id : ℕ)
      → s.key_id ≢ id
      → r.load true (r.save true db s) id ≡ r.load true db id
  pub load_down : (db : r.Db) (id : ℕ) → r.load false db id ≡ none
  pub save_down : (db : r.Db) (s : StoredState) → r.save false db s ≡ db

pub record Config : Type 0 where
  pub threshold : ℕ
  pub cooldown : ℕ
  pub decay_every : ℕ

pub record State : Type 0 where
  pub score : ℕ
  pub last_updated : ℕ
  pub cooldown_until : ℕ

unfoldable pub apply_decay : Config → State → ℕ → State
apply_decay c s now =
    let elapsed = sub now s.last_updated in
    let steps = elapsed / c.decay_every in
    if c.decay_every == 0
    then s
    else if ltb elapsed c.decay_every
    then s
    else record s { score = s.score - steps; last_updated = s.last_updated + steps * c.decay_every }

-- The state that RegisterKey makes of a stored one, and the one that `persist` stores.
abbrev pub or_zero : Option ℕ → ℕ
or_zero none = 0
or_zero (some t) = t

abbrev pub unless_zero : ℕ → Option ℕ
unless_zero t = if t == 0 then none else some t

abbrev pub state_of : StoredState → State
state_of stored = record {
  score = stored.score;
  last_updated = stored.last_updated;
  cooldown_until = or_zero stored.cooldown_until;
}

abbrev pub stored_of : ℕ → State → StoredState
stored_of key_id s = record {
  key_id = key_id;
  score = s.score;
  last_updated = s.last_updated;
  cooldown_until = unless_zero s.cooldown_until;
}

module _ (r : Repository) where
  -- `store` is none in a tracker without persistence.
  pub record Tracker : Type 0 where
    pub config : Config
    pub states : StringMap State
    pub key_ids : StringMap ℕ
    pub store : Option (r.Db)

  unfoldable pub new_tracker : Config → Option (r.Db) → Tracker
  new_tracker config store = record { config = config; states = []; key_ids = []; store = store }

  unfoldable pub register_key : Bool → String → ℕ → Tracker → Tracker
  register_key up key key_id t =
      let t' = record t { key_ids = insert key key_id t.key_ids } in
      elim t.store [
        | none ↦ t'
        | some db ↦ elim (r.load up db key_id) [
          | none ↦ t'
          | some stored ↦ record t' { states = insert key (state_of stored) t.states }
        ]
      ]

  unfoldable pub persist : Bool → String → State → Tracker → Tracker
  persist up key s t = elim t.store [
    | none ↦ t
    | some db ↦ elim (lookup key t.key_ids) [
      | none ↦ t
      | some key_id ↦ record t { store = some (r.save up db (stored_of key_id s)) }
    ]
  ]

  -- The state behind the map's pointer is changed in place, and then persisted.
  unfoldable pub commit : Bool → String → State → Tracker → Tracker
  unfolding persist
  commit up key s t = persist up key s (record t { states = insert key s t.states })

  abbrev pub current : String → ℕ → Tracker → State
  current key now t = elim (lookup key t.states) [
    | none ↦ record { score = 0; last_updated = now; cooldown_until = 0 }
    | some s ↦ s
  ]

  abbrev pub charge : ℕ → ℕ → State → State
  charge points now s = record s { score = s.score + points; last_updated = now }

  -- The states that a charge may write: without a cooldown that starts, and with one.
  abbrev pub charged : String → ℕ → ℕ → Tracker → State
  charged key points now t = charge points now (apply_decay t.config (current key now t) now)

  abbrev pub cooled : String → ℕ → ℕ → Tracker → State
  cooled key points now t = record (charged key points now t) {
    cooldown_until = now + t.config.cooldown;
  }

  -- Whether a charge starts a cooldown.
  abbrev pub starts : String → ℕ → ℕ → Tracker → Bool
  starts key points now t =
      let s = charged key points now t in
      leb t.config.threshold s.score && not (ltb now s.cooldown_until)

  -- The score, the end of the cooldown, and whether the cooldown starts now.
  unfoldable pub add : Bool → String → ℕ → ℕ → Tracker → (ℕ × ℕ × Bool) × Tracker
  unfolding commit
  add up key points now t =
      let s = charged key points now t in
      let s' = cooled key points now t in
      if starts key points now t
      then ((s'.score, s'.cooldown_until, true), commit up key s' t)
      else ((s.score, s.cooldown_until, false), commit up key s t)

  -- Whether the key is blocked, for how long, and its score.
  unfoldable pub check : Bool → String → ℕ → Tracker → (Bool × ℕ × ℕ) × Tracker
  unfolding commit
  check up key now t = elim (lookup key t.states) [
    | none ↦ ((false, 0, 0), t)
    | some s₀ ↦
        let s = apply_decay t.config s₀ now in
        let cleared = record s { cooldown_until = 0 } in
        if ltb now s.cooldown_until
        then ((true, sub s.cooldown_until now, s.score), commit up key s t)
        else ((false, 0, s.score), commit up key cleared t)
  ]

  unfoldable pub score : Bool → String → ℕ → Tracker → ℕ × Tracker
  unfolding commit
  score up key now t = elim (lookup key t.states) [
    | none ↦ (0, t)
    | some s₀ ↦ let s = apply_decay t.config s₀ now in (s.score, commit up key s t)
  ]
