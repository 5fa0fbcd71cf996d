-- ===== src/Auth/Agreement.antt =====
-- The two stores of API keys answer alike: gateway/internal/auth/store.go and postgres.go on tables
-- that show the same rows. Callers only test whether an error is nil, so errors count as one.
use mathlib.Core.Option
use sentrymesh.Base.{
  ℕ, suc, String, Bool, true, false, ◌&&◌, ◌≡◌, refl, sym, ap, ◌∙◌, arith, List, [], ◌∷◌, map, any,
  Option, none, some, ◌==◌, str_eq, if◌then◌else◌, ok, err, value, Option-cases, Bool-cases, inl,
  inr,
}
use sentrymesh.Identity.{Identity}
use sentrymesh.Sql.{select_row, order_desc}
use sentrymesh.Sql.Images.{
  select_row-map, update_rows-map, affected-map, any-map, order_desc-map, map-append_one,
}
use sentrymesh.Auth
use sentrymesh.Auth.{
  Env, Key, Store, KeyRecord, Error, has_hash, has_id, is_active, revoked_on, new_key, record_of,
  same, found,
}
use sentrymesh.Auth.Postgres
use sentrymesh.Auth.Postgres.{PostgresStore}
use sentrymesh.Auth.Calls.{
  Call, creates, resolves, revokes, revokes_id, lists, finds_name, finds_id, changes, principal,
  shows, shows_one, serve, serve_postgres, answers, answers_postgres, texts, shown, IsPlain,
  ArePlain,
}

module _ (env : Env) (kept : ℕ → ℕ) where
  is_active-texts : (key : Key ℕ) → is_active (texts env kept key) ≡ is_active key
  is_active-texts key = elim (Option-cases key.revoked_at) [
    | inl e ↦ ground (arith, e)
    | inr (t, e) ↦ ground (arith, e)
  ]

  revoke_where-shown :
      (p : Key ℕ → Bool) (q : Key String → Bool)
      → ((key : Key ℕ) → q (texts env kept key) ≡ p key)
      → (up : Bool) (now : ℕ) (s : PostgresStore)
      → (value (Auth.revoke_where env q up now (shown env kept s)).0
          ≡ value (Postgres.revoke_where env kept p up now s).0)
        × ((Auth.revoke_where env q up now (shown env kept s)).1
            ≡ shown env kept (Postgres.revoke_where env kept p up now s).1)
  unfolding Auth.revoke_where Postgres.revoke_where
  revoke_where-shown p q alike false now s = (refl, refl)
  revoke_where-shown p q alike true now s =
      let both = λ (key : Key ℕ).
        ap (λ b. b && is_active (texts env kept key)) (alike key)
        ∙ ap (λ b. p key && b) (is_active-texts key) in
      (
        ap (λ n. value (if n == 0 then err Auth.not_active else ok tt))
            (affected-map (texts env kept) (λ key. p key && is_active key)
              (λ key. q key && is_active key) both s.rows),
        ap (λ rows. record { next_id = s.next_id; rows = rows })
            (update_rows-map (texts env kept) (λ key. p key && is_active key)
              (λ key. q key && is_active key) (revoked_on now) (revoked_on (env.format now)) both
              (λ key. refl) s.rows),
      )

  create-shown :
      (up : Bool) (now : ℕ) (name raw_key : String) (who : Identity) (expires : Option ℕ)
      (s : PostgresStore)
      → any (has_hash (env.hash raw_key)) s.rows ≡ false
      → Option.map kept expires ≡ expires
      → (value (Auth.create env up now name raw_key who expires (shown env kept s)).0
          ≡ value (Postgres.create env kept up now name raw_key who expires s).0)
        × ((Auth.create env up now name raw_key who expires (shown env kept s)).1
            ≡ shown env kept (Postgres.create env kept up now name raw_key who expires s).1)
  unfolding Auth.create Postgres.create
  create-shown false now name raw_key who expires s fresh whole = (refl, refl)
  create-shown true now name raw_key who expires s fresh whole =
      let h = env.hash raw_key in
      let there = any-map (texts env kept) (has_hash h) (has_hash h) (λ key. refl) s.rows in
      rw there (
        rw (fresh, whole)
          (
            refl,
            ap (λ rows. record { next_id = suc s.next_id; rows = rows })
                (sym (map-append_one (texts env kept) s.rows _)),
          ))

  check_expiry-texts :
      (now : ℕ) (key : Key ℕ) (expires : Option ℕ)
      → ((t : ℕ) → env.parse (env.format t) ≡ some t)
      → value (Auth.check_expiry env now (texts env kept key) (Option.map env.format expires))
        ≡ value (Postgres.check_expiry env kept now key expires)
  check_expiry-texts now key none faithful = refl
  check_expiry-texts now key (some t) faithful = rw (Auth.check_expiry, faithful t) refl

  admit-texts :
      (now : ℕ) (key : Key ℕ)
      → ((t : ℕ) → env.parse (env.format t) ≡ some t)
      → value (Auth.admit env now (texts env kept key)) ≡ value (Postgres.admit env kept now key)
  unfolding Auth.admit Postgres.admit
  admit-texts now key faithful = elim (Bool-cases (is_active key)) [
    | inl e ↦ rw (is_active-texts key) (rw e (check_expiry-texts now key key.expires_at faithful))
    | inr e ↦ rw (is_active-texts key) (rw e refl)
  ]

  resolve-shown :
      (up : Bool) (now : ℕ) (raw_key : String) (s : PostgresStore)
      → ((t : ℕ) → env.parse (env.format t) ≡ some t)
      → value (Auth.resolve env up now raw_key (shown env kept s))
        ≡ value (Postgres.resolve env kept up now raw_key s)
  unfolding Auth.resolve Postgres.resolve
  resolve-shown false now raw_key s faithful = refl
  resolve-shown true now raw_key s faithful =
      let h = env.hash raw_key in
      let there = select_row-map (texts env kept) (has_hash h) (has_hash h) (λ key. refl) s.rows in
      elim (Option-cases (select_row (has_hash h) s.rows)) [
        | inl e ↦ rw there (rw e refl)
        | inr (key, e) ↦ rw there (rw e (admit-texts now key faithful))
      ]

  map-same : (o : Option ℕ) → Option.map same (Option.map env.format o) ≡ Option.map env.format o
  map-same none = refl
  map-same (some t) = refl

  abbrev record_with : Key ℕ → Option String → Option String → KeyRecord
  record_with key expires revoked = record (record_of env.format key) {
    expires_at = expires;
    revoked_at = revoked;
  }

  record_of-texts : (key : Key ℕ) → record_of same (texts env kept key) ≡ record_of env.format key
  record_of-texts key =
      ap (λ e. record_with key e (Option.map same (Option.map env.format key.revoked_at)))
        (map-same key.expires_at)
      ∙ ap (record_with key (Option.map env.format key.expires_at)) (map-same key.revoked_at)

  records-texts :
      (keys : List (Key ℕ))
      → map (record_of same) (map (texts env kept) keys) ≡ map (record_of env.format) keys
  records-texts [] = refl
  records-texts (key ∷ keys) =
      ap (λ r. r ∷ map (record_of same) (map (texts env kept) keys)) (record_of-texts key)
      ∙ ap (λ rs. record_of env.format key ∷ rs) (records-texts keys)

  list-shown :
      (up : Bool) (s : PostgresStore)
      → Auth.list up (shown env kept s) ≡ Postgres.list env kept up s
  unfolding Auth.list Postgres.list
  list-shown false s = refl
  list-shown true s =
      ap (λ keys. ok (map (record_of same) keys))
        (order_desc-map (texts env kept) (λ (k : Key ℕ). k.id) (λ (k : Key String). k.id)
          (λ key. refl) s.rows)
      ∙ ap ok (records-texts (order_desc (λ (k : Key ℕ). k.id) s.rows))

  found-texts :
      (up : Bool) (row : Option (Key ℕ))
      → (if up then found (Option.map (texts env kept) row) else err Auth.database)
        ≡ Postgres.find_one env kept up row
  unfolding Postgres.find_one
  found-texts true none = refl
  found-texts true (some key) = ap ok (record_of-texts key)
  found-texts false row = refl

  find_by_id-shown :
      (up : Bool) (id : ℕ) (s : PostgresStore)
      → Auth.find_by_id up id (shown env kept s) ≡ Postgres.find_by_id env kept up id s
  unfolding Auth.find_by_id Postgres.find_by_id
  find_by_id-shown up id s =
      ap (λ row. if up then found row else err Auth.database)
        (select_row-map (texts env kept) (has_id id) (has_id id) (λ key. refl) s.rows)
      ∙ found-texts up (select_row (has_id id) s.rows)

  find_by_name-shown :
      (up : Bool) (name : String) (s : PostgresStore)
      → Auth.find_by_name up name (shown env kept s) ≡ Postgres.find_by_name env kept up name s
  unfolding Auth.find_by_name Postgres.find_by_name
  find_by_name-shown up name s =
      let sorted =
        order_desc-map (texts env kept) (λ (k : Key ℕ). k.id) (λ (k : Key String). k.id)
          (λ key. refl) s.rows in
      let look =
        λ (rows : List (Key String)). select_row (λ (k : Key String). str_eq k.name name) rows in
      ap (λ rows. if up then found (look rows) else err Auth.database) sorted
      ∙ ap (λ row. if up then found row else err Auth.database)
          (select_row-map (texts env kept) (λ (k : Key ℕ). str_eq k.name name)
            (λ (k : Key String). str_eq k.name name) (λ key. refl)
            (order_desc (λ (k : Key ℕ). k.id) s.rows))
      ∙ found-texts up
          (select_row (λ (k : Key ℕ). str_eq k.name name) (order_desc (λ (k : Key ℕ). k.id) s.rows))

  serve-shown :
      (s : PostgresStore) (c : Call)
      → ((t : ℕ) → env.parse (env.format t) ≡ some t)
      → IsPlain env kept s c
      → ((serve env kept (shown env kept s) c).0 ≡ (serve_postgres env kept s c).0)
        × ((serve env kept (shown env kept s) c).1 ≡ shown env kept (serve_postgres env kept s c).1)
  unfolding serve serve_postgres Auth.revoke Auth.revoke_by_id Postgres.revoke Postgres.revoke_by_id
  serve-shown s (creates up now name raw_key who expires) faithful plain =
      let (answer, after) = create-shown up now name raw_key who expires s plain.0 plain.1 in
      (ap changes answer, after)
  serve-shown s (resolves up now raw_key) faithful plain =
      (ap principal (resolve-shown up now raw_key s faithful), refl)
  serve-shown s (revokes up now raw_key) faithful plain =
      let h = env.hash raw_key in
      let (answer, after) = revoke_where-shown (has_hash h) (has_hash h) (λ key. refl) up now s in
      (ap changes answer, after)
  serve-shown s (revokes_id up now id) faithful plain =
      let (answer, after) = revoke_where-shown (has_id id) (has_id id) (λ key. refl) up now s in
      (ap changes answer, after)
  serve-shown s (lists up) faithful plain = (ap (λ r. shows (value r)) (list-shown up s), refl)
  serve-shown s (finds_name up name) faithful plain =
      (ap (λ r. shows_one (value r)) (find_by_name-shown up name s), refl)
  serve-shown s (finds_id up id) faithful plain =
      (ap (λ r. shows_one (value r)) (find_by_id-shown up id s), refl)

  -- The two stores give the same answers to any sequence of calls, from tables that show the same
  -- rows. No key is created twice, expiries have no more digits than a TIMESTAMPTZ keeps, and a time
  -- that was formatted parses to itself.
  pub answers-agree :
      (s : PostgresStore) (cs : List Call)
      → ((t : ℕ) → env.parse (env.format t) ≡ some t)
      → ArePlain env kept s cs
      → answers env kept (shown env kept s) cs ≡ answers_postgres env kept s cs
  unfolding answers answers_postgres
  answers-agree s [] faithful plain = refl
  answers-agree s (c ∷ cs) faithful plain =
      let (answer, after) = serve-shown s c faithful plain.0 in
      ap (λ a. a ∷ answers env kept (serve env kept (shown env kept s) c).1 cs) answer
      ∙ ap (λ t. (serve_postgres env kept s c).0 ∷ answers env kept t cs) after
      ∙ ap (λ more. (serve_postgres env kept s c).0 ∷ more)
          (answers-agree (serve_postgres env kept s c).1 cs faithful plain.1)
