-- ===== src/Auth/Scopes.antt =====
-- gateway/internal/auth/store.go: the scopes of a key as one text, joined at creation and split at
-- resolution.
use Prim.Native.Char.{Char, code}
use Prim.Native.String.{◌++◌, [] as no_text, ◌∷◌ as char_cons}
use sentrymesh.Base.{String, Bool, List, [], ◌∷◌, ◌==◌, str_eq, if◌then◌else◌}

-- `strings.Join(…, ",")`
unfoldable pub join : List String → String
join [] = ""
join (s ∷ []) = s
join (s ∷ t ∷ rest) = s ++ ("," ++ join (t ∷ rest))

abbrev pub is_comma : Char → Bool
is_comma c = code c == 44

abbrev pub put : Char → String × List String → String × List String
put c pieces = if is_comma c then ("", pieces.0 ∷ pieces.1) else (char_cons c pieces.0, pieces.1)

-- `strings.Split(…, ",")`: the first piece and the others.
unfoldable pub split : String → String × List String
split no_text = ("", [])
split (char_cons c s) = put c (split s)

module _ (trim : String → String) where
  -- The loop over the parts.
  unfoldable pub keep_scopes : List String → List String
  keep_scopes [] = []
  keep_scopes (part ∷ parts) =
      if str_eq (trim part) "" then keep_scopes parts else trim part ∷ keep_scopes parts

  unfoldable pub split_scopes : String → List String
  unfolding keep_scopes split
  split_scopes raw = if str_eq raw "" then [] else keep_scopes ((split raw).0 ∷ (split raw).1)
