-- ===== src/Auth/Tests.antt =====
-- Runs of the stores of API keys and their handlers, and their theorems at concrete keys.
use Prim.Native.String.{[] as no_text, ◌∷◌ as char_cons}
use mathlib.Core.Option
use sentrymesh.Base.{ℕ, zero, suc, ap, ◌^◌, ◌≡◌, refl, arith, String, true, List, [], ◌∷◌, some, ok}
use sentrymesh.Identity.{Identity}
use sentrymesh.Sql.{select_row}
use sentrymesh.Auth.{Env, Store, new_store, create, resolve, admit}
use sentrymesh.Auth.Scopes.{join, split, keep_scopes, split_scopes}
use sentrymesh.Auth.History.{revokes, run}
use sentrymesh.Auth.Postgres.{PostgresStore}
use sentrymesh.Auth.Calls
use sentrymesh.Auth.Agreement.{answers-agree}
use sentrymesh.Auth.Guard.{Handler, Passage, after_prefix, auth, require_scope, auth-Passage}
use sentrymesh.Auth.Keys.{
  CreateKeyRequest, World, Luck, created, succeeds, expiry, requested, create_key_handler,
  revoke_key_handler,
}
use sentrymesh.Auth.Lockout.{revoke_key_handler-locks_out, create_key_handler-grants}

-- A time is written as that many marks.
abbrev marks : ℕ → String
marks zero = ""
marks (suc n) = char_cons "|" (marks n)

abbrev count_marks : String → ℕ
count_marks no_text = 0
count_marks (char_cons c s) = suc (count_marks s)

count_marks-marks : (n : ℕ) → some (count_marks (marks n)) ≡ some n
count_marks-marks zero = refl
count_marks-marks (suc n) = ap (Option.map suc) (count_marks-marks n)

abbrev env : Env
env = record { hash = λ s. s; trim = λ s. s; format = marks; parse = λ s. some (count_marks s) }

abbrev clerk : Identity
clerk = record {
  user_id = "u";
  role = "analyst";
  team = "t";
  scopes = "rag:chat" ∷ "tools:evaluate" ∷ [];
  key_id = 0;
  key_name = "";
}

-- Key 1 has the raw key "k" and expires at 9.
abbrev one_key : Store
one_key = (create env true 5 "first" "k" clerk (some 9) new_store).1

scopes_lem : split_scopes env.trim "a, b,,c" ≡ "a" ∷ " b" ∷ "c" ∷ []
unfolding split_scopes split keep_scopes
scopes_lem = refl

abbrev calls : List Calls.Call
calls =
    Calls.creates true 5 "first" "k" clerk (some 9)
    ∷ Calls.resolves true 6 "k"
    ∷ Calls.revokes_id true 7 1
    ∷ Calls.resolves true 8 "k"
    ∷ Calls.lists true
    ∷ []

abbrev empty : PostgresStore
empty = record { next_id = 1; rows = [] }

answers-agree_example :
    Calls.answers env (λ t. t) (Calls.shown env (λ t. t) empty) calls
    ≡ Calls.answers_postgres env (λ t. t) empty calls
answers-agree_example =
    answers-agree env (λ t. t) empty calls count_marks-marks
      ((refl, refl), (tt, (tt, (tt, (tt, tt)))))

abbrev next : Handler ℕ
next principal w = (200, suc w)

auth-Passage_example :
    Passage env.trim
      (λ key. resolve env true 6 key one_key)
      "rag:chat"
      "Bearer k"
      next
      0
      (auth env.trim
        (λ key. resolve env true 6 key one_key)
        "Bearer k"
        (require_scope "rag:chat" next)
        0)
auth-Passage_example =
    auth-Passage env.trim (λ key. resolve env true 6 key one_key) "rag:chat" "Bearer k" next 0

let_through_lem :
    auth env.trim
      (λ key. resolve env true 6 key one_key)
      "Bearer k"
      (require_scope "rag:chat" next)
      0
    ≡ (200, 1)
unfolding auth require_scope after_prefix resolve admit create new_store select_row split_scopes
    split keep_scopes join
let_through_lem = refl

abbrev luck : Luck
luck = record { first = true; second = true; audit = true; now = 7; raw_key = some "k" }

abbrev req : CreateKeyRequest
req = record {
  name = "first";
  user_id = "u";
  role = "admin";
  team = "t";
  scopes = "*" ∷ [];
  expires_in = 1;
}

abbrev fresh : World
fresh = record { store = new_store; events = [] }

create_key_handler-grants_example :
    let (response, after) = create_key_handler env luck (some clerk) (some req) fresh in
    (response ≡ succeeds (created "first" "k"))
    × (resolve env true 8 "k" after.store
        ≡ ok (record (requested req) { key_id = 1; key_name = "first" }))
unfolding new_store expiry split
create_key_handler-grants_example =
    create_key_handler-grants env luck clerk req "k" fresh 8 refl refl refl refl
      ((refl, refl, refl), tt) count_marks-marks (omega arith)

resolved_lem : resolve env true 6 "k" one_key ≡ ok (record clerk { key_id = 1; key_name = "first" })
unfolding resolve admit create new_store select_row split_scopes split keep_scopes join
resolved_lem = refl

revoke_key_handler-locks_out_example :
    let (response, after) =
      revoke_key_handler env luck (some clerk) (some 1) (record { store = one_key; events = [] }) in
    (response.status ≡ 200)
    × (auth env.trim
          (λ key. resolve env true 9 key (run env after.store (revokes true 8 "k" ∷ [])))
          "Bearer k"
          next
          0
        ≡ (401, 0))
unfolding after_prefix
revoke_key_handler-locks_out_example =
    revoke_key_handler-locks_out env true 6 "Bearer k" "k"
      (record clerk { key_id = 1; key_name = "first" }) clerk luck
      (record { store = one_key; events = [] }) (revokes true 8 "k" ∷ []) true 9 next 0 refl
      resolved_lem refl refl

-- One hour more than 2562047 wraps around to a time in the past.
expiry_wraps : expiry (10 ^ 19) 2562048 ≡ some 776628726290448384
unfolding expiry
expiry_wraps = refl
