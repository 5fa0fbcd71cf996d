-- ===== src/Abuse/Commit.antt =====
-- What a write of a key's state leaves (gateway/internal/abuse/tracker.go).
use sentrymesh.Base.{
  String, Bool, false, some, lookup, insert, lookup-insert_self, lookup-insert_ne, str_eq, ◌≡◌, ap,
  ◌∙◌, arith,
}
use sentrymesh.Abuse.{Repository, State, Tracker, persist, commit}

module _ (r : Repository) where
  pub commit-states :
      (up : Bool) (key : String) (s : State) (t : Tracker r)
      → (commit r up key s t).states ≡ insert key s t.states
  unfolding commit persist
  commit-states up key s t = ground arith

  pub commit-config :
      (up : Bool) (key : String) (s : State) (t : Tracker r)
      → (commit r up key s t).config ≡ t.config
  unfolding commit persist
  commit-config up key s t = ground arith

  pub commit-key_ids :
      (up : Bool) (key : String) (s : State) (t : Tracker r)
      → (commit r up key s t).key_ids ≡ t.key_ids
  unfolding commit persist
  commit-key_ids up key s t = ground arith

  pub lookup-commit_self :
      (up : Bool) (key : String) (s : State) (t : Tracker r)
      → lookup key (commit r up key s t).states ≡ some s
  lookup-commit_self up key s t =
      ap (lookup key) (commit-states up key s t) ∙ lookup-insert_self key s t.states

  pub lookup-commit_ne :
      (up : Bool) (key other : String) (s : State) (t : Tracker r)
      → str_eq key other ≡ false
      → lookup other (commit r up key s t).states ≡ lookup other t.states
  lookup-commit_ne up key other s t apart =
      ap (lookup other) (commit-states up key s t) ∙ lookup-insert_ne key other s t.states apart
