-- ===== src/Auth/Revocation.antt =====
-- What any calls of gateway/internal/auth/store.go leave of one key: a key that was revoked, and one
-- that has expired, resolves no more.
use sentrymesh.Base.{
  ℕ, String, ◌≤◌, ◌<◌, ◌≡◌, ◌≢◌, refl, sym, ap, subst, ◌∙◌, inl, inr, ◌⊎◌, arith, Bool, true, false,
  not, ◌&&◌, List, [], ◌∷◌, Option, none, some, ltb, if◌then◌else◌, if_elim, Result, ok, err, value,
  Bool-cases, Option-cases,
}
use sentrymesh.Identity.{Identity}
use sentrymesh.Sql.Select.{changed, select_row-update_rows, affected-found}
use sentrymesh.Auth.{
  Env, Key, Store, Error, has_hash, has_id, is_active, revoked_on, identity_of, check_expiry,
  unless_expired, admit, resolve, invalid_expiry, revoked, revoke_where, revoke_by_id, expired,
}
use sentrymesh.Auth.History.{Op, at, step, run, Ages, at-step}

module _ (env : Env) where
  -- A row that Resolve refuses from a time on.
  abbrev IsSpent : ℕ → Key String → Type 0
  IsSpent now key =
      (is_active key ≡ false)
      ⊎ ((text : String) × (expires : ℕ) × (key.expires_at ≡ some text)
          × (env.parse text ≡ some expires)
          × (expires < now))

  IsSpent-Ages :
      (now : ℕ) (key later : Key String) → IsSpent now key → Ages env key later → IsSpent now later
  IsSpent-Ages now key later h (inl e) = subst (IsSpent now) (sym e) h
  IsSpent-Ages now key later (inl h) (inr (t, e, a)) = cc
  IsSpent-Ages now key later (inr h) (inr (t, e, a)) = inl (rw e refl)

  IsSpent-run :
      (now : ℕ) (h : String) (os : List Op) (s : Store) (key : Key String)
      → at h s ≡ some key
      → IsSpent now key
      → (later : Key String) × (at h (run env s os) ≡ some later) × IsSpent now later
  unfolding run
  IsSpent-run now h [] s key e spent = (key, e, spent)
  IsSpent-run now h (o ∷ os) s key e spent =
      let (next, f, ages) = at-step env s o h key e in
      IsSpent-run now h os (step env s o) next f (IsSpent-Ages now key next spent ages)

  pub resolve-at :
      (now : ℕ) (raw_key : String) (s : Store) (key : Key String)
      → at (env.hash raw_key) s ≡ some key
      → resolve env true now raw_key s ≡ admit env now key
  unfolding resolve
  resolve-at now raw_key s key e = rw e refl

  check_expiry-late :
      (now later : ℕ) (key : Key String) (text : String) (expires : ℕ)
      → now ≤ later
      → env.parse text ≡ some expires
      → expires < now
      → value (check_expiry env later key (some text)) ≡ none
  check_expiry-late now later key text expires le f lt =
      rw (f, check_expiry, value)
        (if_elim (λ (r : Result Error Identity). value r ≡ none) (ltb expires later) (λ t. refl)
          (λ m. absurd (ground (arith, lt, le, m))))

  admit-spent :
      (now later : ℕ) (key : Key String)
      → now ≤ later
      → IsSpent now key
      → value (admit env later key) ≡ none
  unfolding admit
  admit-spent now later key le (inl h) = rw h refl
  admit-spent now later key le (inr (text, expires, e, f, lt)) =
      if_elim (λ (r : Result Error Identity). value r ≡ none) (not (is_active key)) (λ t. refl)
        (λ n.
          subst (λ o. value (check_expiry env later key o) ≡ none) (sym e)
            (check_expiry-late now later key text expires le f lt))

  resolve-spent :
      (now later : ℕ) (up : Bool) (raw_key : String) (s : Store) (key : Key String)
      → now ≤ later
      → at (env.hash raw_key) s ≡ some key
      → IsSpent now key
      → value (resolve env up later raw_key s) ≡ none
  unfolding resolve
  resolve-spent now later false raw_key s key le e spent = refl
  resolve-spent now later true raw_key s key le e spent =
      ap value (resolve-at later raw_key s key e) ∙ admit-spent now later key le spent

  check_expiry-ok :
      (now : ℕ) (key : Key String) (expires : Option String) (principal : Identity)
      → check_expiry env now key expires ≡ ok principal
      → principal ≡ identity_of env key
  check_expiry-ok now key none principal h = cc
  check_expiry-ok now key (some text) principal h = elim (Option-cases (env.parse text)) [
    | inl e ↦ absurd (ground (arith, e, h))
    | inr (expires, e) ↦ read expires (ltb expires now) (
        subst
          (λ o.
            elim o [ none ↦ err invalid_expiry | some t ↦ unless_expired env now t key ]
            ≡ ok principal)
          e h)
  ]
    where
      read :
          (expires : ℕ) (late : Bool)
          → (if late then err expired else ok (identity_of env key)) ≡ ok principal
          → principal ≡ identity_of env key
      read expires true g = cc
      read expires false g = cc

  admit-ok :
      (now : ℕ) (key : Key String) (principal : Identity)
      → admit env now key ≡ ok principal
      → (is_active key ≡ true) × (principal ≡ identity_of env key)
  unfolding admit
  admit-ok now key principal h = elim (Bool-cases (is_active key)) [
    | inl a ↦ (
      a,
      check_expiry-ok now key key.expires_at principal (
          subst
            (λ b.
              (if not b then err revoked else check_expiry env now key key.expires_at)
              ≡ ok principal)
            a h),
    )
    | inr n ↦ absurd (
        stuck (
          subst
            (λ b.
              (if not b then err revoked else check_expiry env now key key.expires_at)
              ≡ ok principal)
            n h))
  ]
    where
      stuck : err revoked ≢ ok principal
      stuck g = cc

  -- A key that resolves has an active row, which says who it is.
  pub resolve-ok :
      (up : Bool) (now : ℕ) (raw_key : String) (s : Store) (principal : Identity)
      → resolve env up now raw_key s ≡ ok principal
      → (key : Key String) × (at (env.hash raw_key) s ≡ some key)
        × (is_active key ≡ true)
        × (principal ≡ identity_of env key)
  unfolding resolve
  resolve-ok false now raw_key s principal h = cc
  resolve-ok true now raw_key s principal h = elim (Option-cases (at (env.hash raw_key) s)) [
    | inl e ↦ absurd (ground (arith, e, h))
    | inr (key, e) ↦
        let (active, who) = admit-ok now key principal (sym (resolve-at now raw_key s key e) ∙ h) in
        (key, e, active, who)
  ]

  -- An active row that a revocation is about is revoked, and counted.
  revoke_where-hit :
      (p : Key String → Bool) (now : ℕ) (h : String) (s : Store) (key : Key String)
      → at h s ≡ some key
      → is_active key ≡ true
      → p key ≡ true
      → ((revoke_where env p true now s).0 ≡ ok tt)
        × (at h (revoke_where env p true now s).1 ≡ some (revoked_on (env.format now) key))
  unfolding revoke_where
  revoke_where-hit p now h s key e active hit =
      let q = λ (k : Key String). p k && is_active k in
      let f = revoked_on (env.format now) in
      (
        rw (affected-found (has_hash h) q s.rows key e (rw (hit, active) refl)) refl,
        select_row-update_rows (has_hash h) q f s.rows (λ r. refl)
            ∙ ap (changed (has_hash h) q f) e
            ∙ rw (hit, active) refl,
      )

  -- A key that resolves and is then revoked under its id is refused from then on: RevokeByID
  -- answers without an error, and after any further calls of the store Resolve returns an error.
  pub revoked_for_good :
      (up : Bool) (now at_last : ℕ) (raw_key : String) (s : Store) (principal : Identity)
      (os : List Op) (up' : Bool) (later : ℕ)
      → resolve env up now raw_key s ≡ ok principal
      → ((revoke_by_id env true at_last principal.key_id s).0 ≡ ok tt)
        × (value (
              resolve env up' later raw_key
                (run env (revoke_by_id env true at_last principal.key_id s).1 os))
            ≡ none)
  unfolding revoke_by_id
  revoked_for_good up now at_last raw_key s principal os up' later h =
      let (key, e, active, who) = resolve-ok up now raw_key s principal h in
      let (answer, dead) =
        revoke_where-hit (has_id principal.key_id) at_last (env.hash raw_key) s key e active
          (ground (arith, ap (λ (i : Identity). i.key_id) who)) in
      let (last, f, spent) = IsSpent-run later (env.hash raw_key) os _ _ dead (inl refl) in
      (answer, resolve-spent later later up' raw_key _ last (omega arith) f spent)

  -- An expired key stays expired, whatever calls of the store follow: Resolve returns an error at
  -- every later time.
  pub expired_for_good :
      (now : ℕ) (raw_key : String) (s : Store) (key : Key String) (text : String) (expires : ℕ)
      (os : List Op) (up' : Bool) (later : ℕ)
      → at (env.hash raw_key) s ≡ some key
      → key.expires_at ≡ some text
      → env.parse text ≡ some expires
      → expires < now
      → now ≤ later
      → value (resolve env up' later raw_key (run env s os)) ≡ none
  expired_for_good now raw_key s key text expires os up' later e t p lt le =
      let (last, f, spent) =
        IsSpent-run now (env.hash raw_key) os s key e (inr (text, expires, t, p, lt)) in
      resolve-spent now later up' raw_key _ last le f spent

  pub resolve-revoked :
      (up : Bool) (now : ℕ) (raw_key : String) (s : Store) (key : Key String)
      → at (env.hash raw_key) s ≡ some key
      → is_active key ≡ false
      → value (resolve env up now raw_key s) ≡ none
  resolve-revoked up now raw_key s key e dead =
      resolve-spent now now up raw_key s key (omega arith) e (inl dead)
