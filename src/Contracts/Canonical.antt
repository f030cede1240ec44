-- ===== src/Contracts/Canonical.antt =====
-- packages/contracts/src/canonical.ts: the text of a value that is signed. A text of the language is the
-- list of its UTF-16 code units. A number is its text in JSON, and `none` if it is not finite. How
-- `JSON.stringify` prints a text is a parameter. `none` is the exception of a value that cannot be
-- written. The values of an object are printed before its keys are sorted, which gives the same text.
pub mod Order
use railsentinel.Prelude.{
  ℕ, String, List, [], ◌∷◌, Option, none, some, Bool, true, false, ltb, ◌==◌, if◌then◌else◌, ◌>>=◌,
}
use railsentinel.Prelude.Text.{◌+++◌}

mutual
  -- `absent` is `undefined`, `other` a function, a symbol or a big integer.
  pub data Value : Type 0 where
    absent : Value
    other : Value
    null : Value
    boolean : Bool → Value
    number : Option String → Value
    text : List ℕ → Value
    array : Items → Value
    object : Fields → Value

  pub data Items : Type 0 where
    nil : Items
    cons : Value → Items → Items

  -- in the order of `Object.keys`
  pub data Fields : Type 0 where
    end : Fields
    field : List ℕ → Value → Fields → Fields

-- The order of `sort`: by code units
unfoldable pub units_le : List ℕ → List ℕ → Bool
units_le [] b = true
units_le (x ∷ xs) [] = false
units_le (x ∷ xs) (y ∷ ys) =
    let rest = units_le xs ys in if ltb x y then true else if x == y then rest else false

unfoldable pub insert_key : List ℕ × String → List (List ℕ × String) → List (List ℕ × String)
unfolding units_le
insert_key p [] = p ∷ []
insert_key p (q ∷ qs) =
    let later = insert_key p qs in if units_le p.0 q.0 then p ∷ q ∷ qs else q ∷ later

unfoldable pub sort_keys : List (List ℕ × String) → List (List ℕ × String)
unfolding insert_key
sort_keys [] = []
sort_keys (p ∷ ps) = insert_key p (sort_keys ps)

-- `join(',')`
unfoldable pub join : List String → String
join [] = ""
join (s ∷ []) = s
join (s ∷ t ∷ rest) = s +++ "," +++ join (t ∷ rest)

abbrev pub is_absent : Value → Bool
is_absent absent = true
is_absent _ = false

abbrev pub boolean_text : Bool → String
boolean_text true = "true"
boolean_text false = "false"

unfoldable pub members : (List ℕ → String) → List (List ℕ × String) → List String
members quote [] = []
members quote ((k, v) ∷ rest) = (quote k +++ ":" +++ v) ∷ members quote rest

unfoldable mutual
  unfolding sort_keys join members

  pub canonicalize : (List ℕ → String) → Value → Option String
  canonicalize quote absent = none
  canonicalize quote other = none
  canonicalize quote null = some "null"
  canonicalize quote (boolean b) = some (boolean_text b)
  canonicalize quote (number printed) = printed
  canonicalize quote (text units) = some (quote units)
  canonicalize quote (array items) = do
    printed ← canonicalize_items quote items
    some ("[" +++ join printed +++ "]")
  canonicalize quote (object fields) = do
    printed ← canonicalize_fields quote fields
    some ("{" +++ join (members quote (sort_keys printed)) +++ "}")

  pub canonicalize_items : (List ℕ → String) → Items → Option (List String)
  canonicalize_items quote nil = some []
  canonicalize_items quote (cons v rest) = do
    printed ← canonicalize quote v
    others ← canonicalize_items quote rest
    some (printed ∷ others)

  -- The fields that are there, each with the text of its value
  pub canonicalize_fields : (List ℕ → String) → Fields → Option (List (List ℕ × String))
  canonicalize_fields quote end = some []
  canonicalize_fields quote (field k v rest) =
      let others = canonicalize_fields quote rest in
      let printed = canonicalize quote v >>= λ t. others >>= λ ps. some ((k, t) ∷ ps) in
      if is_absent v then others else printed
