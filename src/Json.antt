-- ===== src/Json.antt =====
-- The values that `json.loads` returns and `json.dumps` takes, over the type `F` of Python's
-- floats, and what the code asks of them (`dict.get`, `isinstance`, truth values).
use nycc_grid.Base.{
  if◌then◌else◌, ◌==◌, String, Bool, true, false, not, Option, none, some, List, [], ◌∷◌, nat_eq,
  string_eq, pair_eq,
}
use nycc_grid.Base.Int.{ℤ}

mutual
  pub data Json (F : Type 0) : Type 0 where
    null : Json F
    bool : Bool → Json F
    int : ℤ → Json F
    float : F → Json F
    str : String → Json F
    arr : Items F → Json F
    obj : Fields F → Json F

  pub data Items (F : Type 0) : Type 0 where
    nil : Items F
    cons : Json F → Items F → Items F

  pub data Fields (F : Type 0) : Type 0 where
    end : Fields F
    field : String → Json F → Fields F → Fields F

module _ {F : Type 0} where
  -- `d.get(k)`: None, which JSON spells null, for a missing key.
  abbrev pub get_field : Fields F → String → Json F
  get_field end k = null
  get_field (field j v d) k = if j == k then v else get_field d k

  -- `k in d`
  abbrev pub has_field : Fields F → String → Bool
  has_field end k = false
  has_field (field j v d) k = let rest = has_field d k in if j == k then true else rest

  -- `{k: v for k, v in d.items() if k != name}`
  abbrev pub without_field : String → Fields F → Fields F
  without_field name end = end
  without_field name (field k v d) =
      let rest = without_field name d in if k == name then rest else field k v rest

  -- A dict literal.
  abbrev pub fields : List (String × Json F) → Fields F
  fields [] = end
  fields ((k, v) ∷ d) = field k v (fields d)

  abbrev pub object : List (String × Json F) → Json F
  object d = obj (fields d)

  abbrev pub items : List (Json F) → Items F
  items [] = nil
  items (x ∷ xs) = cons x (items xs)

  abbrev pub list_of : Items F → List (Json F)
  list_of nil = []
  list_of (cons x xs) = x ∷ list_of xs

  -- `isinstance(value, str)`, with the string.
  abbrev pub as_str : Json F → Option String
  as_str (str s) = some s
  as_str _ = none

  -- `isinstance(value, dict)`, with the dict.
  abbrev pub as_obj : Json F → Option (Fields F)
  as_obj (obj d) = some d
  as_obj _ = none

  abbrev pub is_null : Json F → Bool
  is_null null = true
  is_null _ = false

  -- `value == text` for a string on the right.
  abbrev pub is_str : Json F → String → Bool
  is_str (str s) t = s == t
  is_str _ t = false

-- `bool(s)` of a string.
abbrev pub nonempty : String → Bool
nonempty s = not (s == "")
