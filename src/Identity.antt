-- ===== src/Identity.antt =====
-- gateway/internal/identity/identity.go: who makes a request. A role is a string, and any text may
-- stand there: the three constants are those that the policies name.
use sentrymesh.Base.{ℕ, String, Bool, List, str_eq}

abbrev pub analyst : String
analyst = "analyst"

abbrev pub sales : String
sales = "sales"

abbrev pub admin : String
admin = "admin"

pub record Identity : Type 0 where
  pub user_id : String
  pub role : String
  pub team : String
  pub scopes : List String
  pub key_id : ℕ
  pub key_name : String

-- `principal.Role == identity.X`
abbrev pub has_role : Identity → String → Bool
has_role principal role = str_eq principal.role role
