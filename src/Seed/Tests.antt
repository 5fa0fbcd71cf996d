-- ===== src/Seed/Tests.antt =====
-- Starts of the gateway with and without keys.
use sentrymesh.Base.{◌≡◌, refl, true, some}
use sentrymesh.Sql.{select_row, update_rows}
use sentrymesh.Auth.{Env, Store, create, revoke_where, revoke_by_id, new_store, resolve, admit}
use sentrymesh.Seed.{
  Luck, ensure_api_key, seed_production_keys, seed_development_keys, development_keys,
}

abbrev env : Env
env = record { hash = λ s. s; trim = λ s. s; format = λ t. "t"; parse = λ s. some 0 }

abbrev up : Luck
up = record { first = true; second = true }

-- The second start finds the keys of the first.
seeds_once :
    seed_development_keys env
      (λ name. up)
      9
      development_keys
      (seed_development_keys env (λ name. up) 5 development_keys new_store)
    ≡ seed_development_keys env (λ name. up) 5 development_keys new_store
unfolding seed_development_keys ensure_api_key resolve create new_store select_row admit
seeds_once = refl

abbrev retired : Store
retired =
    (revoke_by_id env true 7 1 (seed_production_keys env (λ s. 32) up 5 "secret" new_store).1).1

retired_start : (seed_production_keys env (λ s. 32) up 9 "secret" retired).1 ≡ retired
unfolding seed_production_keys ensure_api_key resolve admit create new_store select_row revoke_by_id
    revoke_where update_rows
retired_start = refl
