-- ===== src/Abuse/Tests.antt =====
-- Runs of the abuse tracker over its table, and its theorems at them. The times of these runs are
-- stored as single characters.
use Prim.Native.String.{◌++◌ as append_text, len}
use text.Mathlib.TextPositions.{len-append}
use sentrymesh.Base.{
  ℕ, zero, suc, ap, ◌∙◌, ◌≤◌, ◌<◌, ◌≡◌, refl, arith, String, true, false, List, [], ◌∷◌, Option,
  none, some, lookup, insert, sub, if◌then◌else◌, ◌==◌, eq_iff,
}
use sentrymesh.Abuse.{
  StoredState, Repository, IsFaithful, Config, State, Tracker, apply_decay, new_tracker,
  register_key, persist, commit, add, check, stored_of,
}
use sentrymesh.Abuse.Cooldown.{Op, adds, checks, reads, run, cooldown_lasts}
use sentrymesh.Abuse.Persistence.{IsSaved, IsOwner, restart_restores, register_key-forgets}

abbrev strict : Config
strict = record { threshold = 5; cooldown = 30; decay_every = 10 }

abbrev seven : State
seven = record { score = 7; last_updated = 100; cooldown_until = 0 }

-- A database of one state, which holds whatever was saved last for each key, as a function.
abbrev plain : Repository
plain = record {
  Db = ℕ → Option StoredState;
  load = λ up db id. if up then db id else none;
  save = λ up db s. if up then (λ id. if id == s.key_id then some s else db id) else db;
}

plain-IsFaithful : IsFaithful plain
plain-IsFaithful = record {
  load-save_self = λ db s. ground arith;
  load-save_ne = λ db s id apart. ground arith;
  load_down = λ db id. refl;
  save_down = λ db s. refl;
}

abbrev empty : plain.Db
empty = λ id. none

abbrev tracker : Tracker plain
tracker = record { config = strict; states = []; key_ids = ("a", 1) ∷ []; store = some empty }

entered : (add plain true "a" 6 100 tracker).0.2 ≡ true
unfolding add commit persist apply_decay lookup insert
entered = refl

abbrev later_ops : List Op
later_ops = checks true "a" 110 ∷ adds true "a" 3 120 ∷ reads true "b" 125 ∷ []

cooldown_lasts_example :
    let t' = run plain (add plain true "a" 6 100 tracker).1 later_ops in
    (128 < 130
      → ((check plain true "a" 128 t').0.0 ≡ true)
        × ((check plain true "a" 128 t').0.1 ≡ sub 130 128))
    × (130 ≤ 128 → (check plain true "a" 128 t').0.0 ≡ false)
cooldown_lasts_example =
    cooldown_lasts plain true true "a" 6 100 128 tracker later_ops entered
      (omega arith, (omega arith, (omega arith, tt)))

known : lookup "a" tracker.key_ids ≡ some 1
unfolding lookup
known = refl

owner : IsOwner plain "a" 1 tracker
unfolding lookup
owner = (refl, λ k h. ground (arith, eq_iff "a" k, eq_iff k "a"))

restart_restores_example :
    let t' = run plain tracker (adds true "a" 6 100 ∷ later_ops) in
    (s : State) × (lookup "a" t'.states ≡ some s)
    × (lookup "a" (register_key plain true "a" 1 (new_tracker plain strict t'.store)).states
        ≡ some s)
restart_restores_example =
    restart_restores plain plain-IsFaithful strict "a" 1 6 100 tracker empty later_ops refl owner
      (refl, (refl, (refl, tt)))

abbrev charged_once : Tracker plain
charged_once = record {
  config = strict;
  states = ("a", seven) ∷ [];
  key_ids = ("a", 1) ∷ [];
  store = some (λ id. some (stored_of 1 seven));
}

charged_once-IsSaved : IsSaved plain "a" 1 charged_once
unfolding lookup
charged_once-IsSaved = ((λ id. some (stored_of 1 seven)), seven, refl, refl, refl)

register_key-forgets_example :
    lookup "a" (register_key plain true "a" 1 (add plain false "a" 6 100 charged_once).1).states
    ≡ lookup "a" charged_once.states
register_key-forgets_example =
    register_key-forgets plain plain-IsFaithful "a" 1 6 100 charged_once known charged_once-IsSaved

-- A time as that many characters.
abbrev unary : ℕ → String
unary zero = ""
unary (suc n) = append_text "x" (unary n)

abbrev count : String → Option ℕ
count s = some (len s)

len-unary : (t : ℕ) → len (unary t) ≡ t
len-unary zero = refl
len-unary (suc n) = len-append "x" (unary n) ∙ omega (arith, len-unary n)

count-unary : (t : ℕ) → count (unary t) ≡ some t
count-unary t = ap some (len-unary t)
