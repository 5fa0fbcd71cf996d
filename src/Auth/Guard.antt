-- ===== src/Auth/Guard.antt =====
-- gateway/internal/middleware/auth.go and scope.go: the middlewares in front of the handlers of API
-- keys. A handler takes the identity of the request's context, if there is one, and its own world,
-- and gives the status that it answers; `resolve` is the default store's Resolve.
use Prim.Native.Char.{code}
use Prim.Native.String.{[] as no_text, ◌∷◌ as char_cons}
use sentrymesh.Base.{
  ℕ, String, true, ◌||◌, Option, none, some, any, str_eq, ◌==◌, if◌then◌else◌, if_elim, Result, ok,
  err, ◌≡◌, refl, value,
}
use sentrymesh.Identity.{Identity}
use sentrymesh.Auth.{Error}

-- `strings.HasPrefix` and `strings.TrimPrefix`: what follows the prefix, if it is there.
unfoldable pub after_prefix : String → String → Option String
after_prefix no_text s = some s
after_prefix (char_cons c prefix) no_text = none
after_prefix (char_cons c prefix) (char_cons d s) =
    if code c == code d then after_prefix prefix s else none

abbrev pub Handler : Type 0 → Type 0
Handler World = Option Identity → World → ℕ × World

module _ {World : Type 0} where
  abbrev pub attach : Result Error Identity → Handler World → World → ℕ × World
  attach (err _) next w = (401, w)
  attach (ok principal) next w = next (some principal) w

  unfoldable pub auth :
      (String → String)
      → (String → Result Error Identity)
      → String
      → Handler World
      → World
      → ℕ × World
  unfolding after_prefix
  auth trim resolve header next w =
      if str_eq header "" then (401, w) else elim (after_prefix "Bearer " header) [
        | none ↦ (401, w)
        | some rest ↦ attach (resolve (trim rest)) next w
      ]

  unfoldable pub require_scope : String → Handler World → Handler World
  require_scope scope next none w = (401, w)
  require_scope scope next (some principal) w =
      if any (λ candidate. str_eq candidate scope || str_eq candidate "*") principal.scopes
      then next (some principal) w
      else (403, w)

  attach-refused :
      (r : Result Error Identity) (next : Handler World) (w : World)
      → value r ≡ none
      → attach r next w ≡ (401, w)
  attach-refused (ok principal) next w h = cc
  attach-refused (err e) next w h = refl

  -- A request whose key does not resolve reaches no handler.
  pub auth-refused :
      (trim : String → String) (resolve : String → Result Error Identity) (header rest : String)
      (next : Handler World) (w : World)
      → after_prefix "Bearer " header ≡ some rest
      → value (resolve (trim rest)) ≡ none
      → auth trim resolve header next w ≡ (401, w)
  unfolding auth
  auth-refused trim resolve header rest next w h refused = rw h (
      if_elim (λ (o : ℕ × World). o ≡ (401, w)) (str_eq header "") (λ e. refl)
        (λ e. attach-refused (resolve (trim rest)) next w refused))

  -- What stands between a request and a handler behind the two middlewares.
  pub data Passage (trim : String → String) (resolve : String → Result Error Identity)
      (scope header : String) (next : Handler World) (w : World) : ℕ × World → Type 0 where
    turned_away : Passage trim resolve scope header next w (401, w)
    out_of_scope : Passage trim resolve scope header next w (403, w)
    let_through :
        (rest : String) (principal : Identity)
        → after_prefix "Bearer " header ≡ some rest
        → resolve (trim rest) ≡ ok principal
        → any (λ candidate. str_eq candidate scope || str_eq candidate "*") principal.scopes ≡ true
        → Passage trim resolve scope header next w (next (some principal) w)

  -- A request reaches the handler of a route only with a bearer token that resolves to an identity
  -- with the scope of the route or "*", which the handler is given; every other request is answered
  -- 401 or 403 and changes nothing.
  pub auth-Passage :
      (trim : String → String) (resolve : String → Result Error Identity) (scope header : String)
      (next : Handler World) (w : World)
      → Passage trim resolve scope header next w
          (auth trim resolve header (require_scope scope next) w)
  unfolding auth require_scope
  auth-Passage trim resolve scope header next w =
      let P = Passage trim resolve scope header next w in
      if_elim P (str_eq header "") (λ e. turned_away)
        (λ e. prefixed (after_prefix "Bearer " header) refl)
    where
      resolved :
          (rest : String) (r : Result Error Identity)
          → after_prefix "Bearer " header ≡ some rest
          → resolve (trim rest) ≡ r
          → Passage trim resolve scope header next w (attach r (require_scope scope next) w)
      resolved rest (err e) h g = turned_away
      resolved rest (ok principal) h g =
          if_elim (Passage trim resolve scope header next w)
            (any (λ candidate. str_eq candidate scope || str_eq candidate "*") principal.scopes)
            (λ e. let_through rest principal h g e) (λ e. out_of_scope)

      prefixed :
          (o : Option String)
          → after_prefix "Bearer " header ≡ o
          → Passage trim resolve scope header next w (elim o [
            | none ↦ (401, w)
            | some rest ↦ attach (resolve (trim rest)) (require_scope scope next) w
          ])
      prefixed none h = turned_away
      prefixed (some rest) h = resolved rest (resolve (trim rest)) h refl
