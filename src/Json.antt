-- ===== src/Json.antt =====
-- The values that Go's encoding/json puts into `any`, and the argument maps of tool calls. A number
-- stands as its literal. The lists of a value are types of the block, read as `List` by `items`.
use sentrymesh.Base.{String, List, [], ◌∷◌, Bool, Option, some}

mutual
  pub data Value : Type 0 where
    null : Value
    boolean : Bool → Value
    number : String → Value
    text : String → Value
    array : Items → Value
    object : Fields → Value

  pub data Items : Type 0 where
    nil : Items
    cons : Value → Items → Items

  pub data Fields : Type 0 where
    end : Fields
    field : String → Value → Fields → Fields

-- `map[string]any`
abbrev pub Arguments : Type 0
Arguments = List (String × Value)

-- `s, _ := value.(string)`, where a missing key and a value of another type both give "".
abbrev pub as_string : Option Value → String
as_string (some (text s)) = s
as_string _ = ""

unfoldable pub strings_of : Items → List String
strings_of nil = []
strings_of (cons (text s) rest) = s ∷ strings_of rest
strings_of (cons _ rest) = strings_of rest

-- `stringSlice` of gateway/internal/tools/policy.go
unfoldable pub string_slice : Option Value → List String
unfolding strings_of
string_slice (some (array items)) = strings_of items
string_slice _ = []
