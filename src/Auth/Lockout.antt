-- ===== src/Auth/Lockout.antt =====
-- The handlers of gateway/internal/api/keys.go together with the middlewares: what a created key
-- grants, and that a revoked one opens nothing any more.
use native.Mathlib.Omega.{arith}
use sentrymesh.Base.{
  ℕ, ◌+◌, ◌*◌, ◌≤◌, ◌<◌, ◌≡◌, refl, sym, ap, subst, String, Bool, true, false, List, All, any, none,
  some, str_eq, Result, ok, err, value,
}
use sentrymesh.Identity.{Identity}
use sentrymesh.Sql.{select_row}
use sentrymesh.Sql.Select.{select_row-found}
use sentrymesh.Auth.{
  Env, Key, Store, Error, record_of, same, KeyRecord, has_hash, has_id, create, find_by_id, resolve,
  revoke_by_id,
}
use sentrymesh.Auth.History.{Op, run}
use sentrymesh.Auth.Revocation.{resolve-ok, revoked_for_good}
use sentrymesh.Auth.RoundTrip.{IsScope, Lasts, create-resolve}
use sentrymesh.Auth.Guard.{Handler, after_prefix, auth, auth-refused}
use sentrymesh.Auth.Keys.{
  CreateKeyRequest, AuthEvent, World, Luck, created, succeeds, hour, expiry, requested,
  after_create, create_key_handler, after_revoke, revoke_found, revoke_key_handler,
}

-- Up to 2562047 hours, the expiry is that many hours from now; beyond, the product wraps around.
pub expiry-exact :
    (now hours : ℕ) → 0 < hours → hours ≤ 2562047 → expiry now hours ≡ some (now + hours * hour)
unfolding expiry
expiry-exact now hours pos le = ground (arith, pos, le)

module _ (env : Env) where
  after_revoke-ok :
      (luck : Luck) (actor : Identity) (id : ℕ) (key : KeyRecord) (events : List AuthEvent)
      (r : Result Error (Unit {0}) × Store)
      → r.0 ≡ ok tt
      → ((after_revoke env luck actor id key events r).0.status ≡ 200)
        × ((after_revoke env luck actor id key events r).1.store ≡ r.1)
  after_revoke-ok luck actor id key events (ok _, s) h = (refl, refl)
  after_revoke-ok luck actor id key events (err _, s) h = cc

  revoke_found-ok :
      (luck : Luck) (actor : Identity) (id : ℕ) (r : Result Error KeyRecord) (key : KeyRecord)
      (w : World)
      → r ≡ ok key
      → luck.second ≡ true
      → (revoke_by_id env true luck.now id w.store).0 ≡ ok tt
      → ((revoke_found env luck actor id r w).0.status ≡ 200)
        × ((revoke_found env luck actor id r w).1.store
            ≡ (revoke_by_id env true luck.now id w.store).1)
  revoke_found-ok luck actor id r key w h two answer =
      subst
        (λ o.
          ((revoke_found env luck actor id o w).0.status ≡ 200)
          × ((revoke_found env luck actor id o w).1.store
              ≡ (revoke_by_id env true luck.now id w.store).1))
        (sym h)
        (subst
          (λ b.
            ((after_revoke env luck actor id key w.events
                (revoke_by_id env b luck.now id w.store)).0.status
              ≡ 200)
            × ((after_revoke env luck actor id key w.events
                  (revoke_by_id env b luck.now id w.store)).1.store
                ≡ (revoke_by_id env true luck.now id w.store).1))
          (sym two) (after_revoke-ok luck actor id key w.events _ answer))

  find_by_id-ok :
      (up : Bool) (id : ℕ) (s : Store) (key : Key String)
      → up ≡ true
      → select_row (has_id id) s.rows ≡ some key
      → find_by_id up id s ≡ ok (record_of same key)
  unfolding find_by_id
  find_by_id-ok up id s key one there = rw one (rw there refl)

  -- An admin's call of the revocation handler for the id that a key resolves to is answered 200, and
  -- from then on, whatever calls of the store follow, a request with the key is answered 401 and
  -- reaches no handler. The database answers the call's two statements.
  pub revoke_key_handler-locks_out :
      (up : Bool) (now : ℕ) (header rest : String) (principal actor : Identity) (luck : Luck)
      (w : World) (os : List Op) (up' : Bool) (later : ℕ) {V : Type 0} (next : Handler V) (v : V)
      → after_prefix "Bearer " header ≡ some rest
      → resolve env up now (env.trim rest) w.store ≡ ok principal
      → luck.first ≡ true
      → luck.second ≡ true
      → let (response, after) =
          revoke_key_handler env luck (some actor) (some principal.key_id) w in
        (response.status ≡ 200)
        × (auth env.trim (λ key. resolve env up' later key (run env after.store os)) header next v
            ≡ (401, v))
  unfolding revoke_key_handler
  revoke_key_handler-locks_out up now header rest principal actor luck w os up' later next v h e one
        two =
      let id = principal.key_id in
      let (key, at_hash, active, who) = resolve-ok env up now (env.trim rest) w.store principal e in
      let (row, there) =
        select_row-found (has_hash (env.hash (env.trim rest))) (has_id id) w.store.rows key at_hash
          (ground (arith, ap (λ (i : Identity). i.key_id) who)) in
      let (answer, gone) =
        revoked_for_good env up now luck.now (env.trim rest) w.store principal os up' later e in
      let (status, store) =
        revoke_found-ok luck actor id _ _ w (find_by_id-ok luck.first id w.store row one there) two
          answer in
      (
        status,
        auth-refused env.trim _ header rest next v h (
            subst (λ s. value (resolve env up' later (env.trim rest) (run env s os)) ≡ none)
              (sym store) gone),
      )

  after_create-ok :
      (luck : Luck) (actor : Identity) (req : CreateKeyRequest) (raw_key : String)
      (events : List AuthEvent) (r : Result Error (Unit {0}) × Store)
      → r.0 ≡ ok tt
      → ((after_create env luck actor req raw_key events r).0 ≡ succeeds (created req.name raw_key))
        × ((after_create env luck actor req raw_key events r).1.store ≡ r.1)
  after_create-ok luck actor req raw_key events (ok _, s) h = (refl, refl)
  after_create-ok luck actor req raw_key events (err _, s) h = cc

  -- Whoever may call the creation handler, the key that it hands out resolves, until it expires, to
  -- the user, role, team and scopes that the body asks for, whatever the caller's own role and
  -- scopes are. The key is new, the database answers, and the scopes are non-empty, without commas
  -- and spaces around them.
  pub create_key_handler-grants :
      (luck : Luck) (actor : Identity) (req : CreateKeyRequest) (raw_key : String) (w : World)
      (later : ℕ)
      → luck.raw_key ≡ some raw_key
      → luck.first ≡ true
      → any (has_hash (env.hash raw_key)) w.store.rows ≡ false
      → str_eq (env.trim "") "" ≡ true
      → All (IsScope env.trim) req.scopes
      → ((t : ℕ) → env.parse (env.format t) ≡ some t)
      → Lasts env later (expiry luck.now req.expires_in)
      → let (response, after) = create_key_handler env luck (some actor) (some req) w in
        (response ≡ succeeds (created req.name raw_key))
        × (resolve env true later raw_key after.store
            ≡ ok (record (requested req) { key_id = w.store.next_id; key_name = req.name }))
  unfolding create_key_handler
  create_key_handler-grants luck actor req raw_key w later drawn up fresh blank clean faithful
        lasts =
      let expires = expiry luck.now req.expires_in in
      let made =
        λ (b : Bool). create env b luck.now req.name raw_key (requested req) expires w.store in
      let (answer, opens) =
        create-resolve env luck.now later req.name raw_key (requested req) expires w.store fresh
          blank clean faithful lasts in
      let (response, store) =
        after_create-ok luck actor req raw_key w.events (made luck.first)
          (subst (λ b. (made b).0 ≡ ok tt) (sym up) answer) in
      let after = after_create env luck actor req raw_key w.events (made luck.first) in
      rw drawn (
        response,
        subst
            (λ s.
              resolve env true later raw_key s
              ≡ ok (record (requested req) { key_id = w.store.next_id; key_name = req.name }))
            (sym store)
            (subst
              (λ b.
                resolve env true later raw_key (made b).1
                ≡ ok (record (requested req) { key_id = w.store.next_id; key_name = req.name }))
              (sym up) opens),
      )
