-- ===== src/Auth/RoundTrip.antt =====
-- The scopes of a key survive the text in which gateway/internal/auth/store.go keeps them, and a
-- created key resolves to the identity that it was created for.
use Prim.Native.Char.{Char}
use Prim.Native.String.{◌++◌, [] as no_text, ◌∷◌ as char_cons}
use text.Mathlib.TextLemmas.{nil-append, cons-append}
use mathlib.Core.List.{append-nil, flat_map}
use sentrymesh.Base.{
  ℕ, String, true, false, ◌≡◌, refl, sym, ap, subst, ◌∙◌, arith, eq_iff, List, [], ◌∷◌,
  ◌++◌ as list_append, Bool-cases, inl, inr, str_eq, if_elim, All, any, ltb, ◌≤◌, Option, none,
  some, Result, ok,
}
use text.Mathlib.TextPositions.{eq_refl}
use mathlib.Core.Option
use sentrymesh.Identity.{Identity}
use sentrymesh.Sql.Select.{select_row-append_new}
use sentrymesh.Auth.{
  Env, Key, Store, Error, has_hash, new_key, create, identity_of, check_expiry, admit, resolve,
}
use sentrymesh.Auth.Revocation.{resolve-at}
use sentrymesh.Auth.Scopes.{join, is_comma, put, split, keep_scopes, split_scopes}

abbrev pieces : String → List String
pieces s = (split s).0 ∷ (split s).1

put-pieces :
    (c : Char) (a b : String × List String)
    → put c (a.0, list_append a.1 (b.0 ∷ b.1)) ≡ ((put c a).0, list_append (put c a).1 (b.0 ∷ b.1))
put-pieces c a b = elim (Bool-cases (is_comma c)) [ inl e ↦ rw e refl | inr e ↦ rw e refl ]

split-comma :
    (s t : String) → split (s ++ ("," ++ t)) ≡ ((split s).0, list_append (split s).1 (pieces t))
unfolding split
split-comma no_text t =
    ap split (nil-append ("," ++ t))
    ∙ ap split (cons-append "," "" t)
    ∙ ap (λ u. put "," (split u)) (nil-append t)
split-comma (char_cons c s) t =
    ap split (cons-append c s ("," ++ t))
    ∙ ap (put c) (split-comma s t)
    ∙ put-pieces c (split s) (split t)

module _ (trim : String → String) where
  keep_scopes-append :
      (xs ys : List String)
      → keep_scopes trim (list_append xs ys)
        ≡ list_append (keep_scopes trim xs) (keep_scopes trim ys)
  unfolding keep_scopes
  keep_scopes-append [] ys = refl
  keep_scopes-append (x ∷ xs) ys = elim (Bool-cases (str_eq (trim x) "")) [
    | inl e ↦ rw e (keep_scopes-append xs ys)
    | inr e ↦ rw e (ap (λ l. trim x ∷ l) (keep_scopes-append xs ys))
  ]

  abbrev kept : String → List String
  kept s = keep_scopes trim (pieces s)

  -- When the empty text trims to itself, the test for it decides nothing.
  split_scopes-kept : (s : String) → str_eq (trim "") "" ≡ true → split_scopes trim s ≡ kept s
  unfolding split_scopes split keep_scopes
  split_scopes-kept s h = elim (Bool-cases (str_eq s "")) [
    | inl e ↦ subst (λ t. split_scopes trim t ≡ kept t) (sym ((eq_iff s "").0 e)) (rw h refl)
    | inr e ↦ rw e refl
  ]

  kept-join : (s : String) (rest : List String) → kept (join (s ∷ rest)) ≡ flat_map kept (s ∷ rest)
  unfolding join flat_map
  kept-join s [] = sym (append-nil (kept s))
  kept-join s (t ∷ rest) =
      ap (λ p. keep_scopes trim (p.0 ∷ p.1)) (split-comma s (join (t ∷ rest)))
      ∙ keep_scopes-append (pieces s) (pieces (join (t ∷ rest)))
      ∙ ap (λ l. list_append (kept s) l) (kept-join t rest)

  -- A scope that the text keeps apart: not empty, without commas and spaces around it.
  abbrev pub IsScope : String → Type 0
  IsScope s = (split s ≡ (s, [])) × (trim s ≡ s) × (str_eq s "" ≡ false)

  kept-scope : (s : String) → IsScope s → kept s ≡ s ∷ []
  unfolding keep_scopes
  kept-scope s (whole, tight, full) = rw whole (rw (tight, full) refl)

  flat_map-kept : (scopes : List String) → All IsScope scopes → flat_map kept scopes ≡ scopes
  unfolding flat_map
  flat_map-kept [] h = refl
  flat_map-kept (s ∷ rest) (h, more) =
      ap (λ l. list_append l (flat_map kept rest)) (kept-scope s h)
      ∙ ap (λ l. s ∷ l) (flat_map-kept rest more)

  -- However the scopes of a key are written, the text that joins them splits into what each of them
  -- splits into, in order. The empty text trims to itself.
  pub split_scopes-join :
      (scopes : List String)
      → str_eq (trim "") "" ≡ true
      → split_scopes trim (join scopes) ≡ flat_map (split_scopes trim) scopes
  unfolding split_scopes join flat_map
  split_scopes-join [] h = refl
  split_scopes-join (s ∷ rest) h =
      split_scopes-kept (join (s ∷ rest)) h ∙ kept-join s rest ∙ sym (each (s ∷ rest))
    where
      each : (scopes : List String) → flat_map (split_scopes trim) scopes ≡ flat_map kept scopes
      each [] = refl
      each (t ∷ more) =
          ap (λ l. list_append l (flat_map (split_scopes trim) more)) (split_scopes-kept t h)
          ∙ ap (λ l. list_append (kept t) l) (each more)

  pub split_scopes-join_clean :
      (scopes : List String)
      → str_eq (trim "") "" ≡ true
      → All IsScope scopes
      → split_scopes trim (join scopes) ≡ scopes
  unfolding split_scopes join
  split_scopes-join_clean [] h clean = refl
  split_scopes-join_clean (s ∷ rest) h clean =
      split_scopes-kept (join (s ∷ rest)) h ∙ kept-join s rest ∙ flat_map-kept (s ∷ rest) clean

module _ (env : Env) where
  -- The key's expiry, if it has one, is not before the time.
  abbrev pub Lasts : ℕ → Option ℕ → Type 0
  Lasts later none = Unit
  Lasts later (some expires) = later ≤ expires

  check_expiry-Lasts :
      (later : ℕ) (key : Key String) (expires : Option ℕ)
      → ((t : ℕ) → env.parse (env.format t) ≡ some t)
      → Lasts later expires
      → check_expiry env later key (Option.map env.format expires) ≡ ok (identity_of env key)
  check_expiry-Lasts later key none faithful h = refl
  check_expiry-Lasts later key (some t) faithful h =
      rw (check_expiry, faithful t)
        (if_elim (λ (r : Result Error Identity). r ≡ ok (identity_of env key)) (ltb t later)
          (λ e. absurd (ground (arith, e, h))) (λ e. refl))

  -- A key that is created resolves, until it expires, to the identity that it was created for, with
  -- the id of its row and its name.
  pub create-resolve :
      (now later : ℕ) (name raw_key : String) (principal : Identity) (expires : Option ℕ)
      (s : Store)
      → any (has_hash (env.hash raw_key)) s.rows ≡ false
      → str_eq (env.trim "") "" ≡ true
      → All (IsScope env.trim) principal.scopes
      → ((t : ℕ) → env.parse (env.format t) ≡ some t)
      → Lasts later expires
      → let (answer, after) = create env true now name raw_key principal expires s in
        (answer ≡ ok tt)
        × (resolve env true later raw_key after
            ≡ ok (record principal { key_id = s.next_id; key_name = name }))
  unfolding create admit
  create-resolve now later name raw_key principal expires s fresh blank clean faithful lasts =
      let h = env.hash raw_key in
      let key =
        new_key s.next_id name h principal (Option.map env.format expires) (env.format now) in
      rw fresh (
        refl,
        resolve-at env later raw_key _ key
              (select_row-append_new (has_hash h) s.rows key fresh (eq_refl h))
            ∙ check_expiry-Lasts later key expires faithful lasts
            ∙ ap
                (λ scopes.
                  ok (record principal { scopes = scopes; key_id = s.next_id; key_name = name }))
                (split_scopes-join_clean env.trim principal.scopes blank clean),
      )
