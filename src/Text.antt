-- ===== src/Text.antt =====
-- Conversions that the files share: code points of a string, `str(v)` and `float(v)` of a value,
-- and the chain of calls of which each may raise.
use Prim.Native.Char.{code}
use nycc_grid.Base.{
  nat_beq, if◌then◌else◌, ℕ, String, Bool, true, false, ◌&&◌, Option, none, some, List, [], ◌∷◌,
}
use nycc_grid.Json.{Json, Fields, get_field, has_field, bool, int, float, str}
use nycc_grid.Runtime.{Platform, Runtime, truthy}
use nycc_grid.Base.Int.{ℤ, pos}

abbrev pub codes : String → List ℕ
codes String.[] = []
codes (String.◌∷◌ c s) = code c ∷ codes s

-- `all(p(x) for x in xs)`
abbrev pub all {ℓ} : {A : Type ℓ} → (A → Bool) → List A → Bool
all p [] = true
all p (x ∷ xs) = p x && all p xs

infixl 5 ◌>>=◌
abbrev pub ◌>>=◌ : {A B : Type 0} → Option A → (A → Option B) → Option B
none >>= f = none
some a >>= f = f a

module _ {F : Type 0} ⦃rt : Runtime F⦄ where
  -- `str(value)`
  abbrev pub to_str : Json F → String
  to_str (str s) = s
  to_str v = rt.str_of v

  -- `float(value)`; none where it raises.
  abbrev pub to_float : Json F → Option F
  to_float (bool b) = some (if b then rt.one else rt.zero)
  to_float (int z) = rt.float_of_int z
  to_float (float x) = some x
  to_float (str s) = rt.float_of_str s
  to_float _ = none

  -- `int(value)`; none where it raises.
  abbrev pub to_int : ⦃pl : Platform⦄ → Json F → Option ℤ
  to_int ⦃pl⦄ (bool b) = some (if b then pos 1 else pos 0)
  to_int ⦃pl⦄ (int z) = some z
  to_int ⦃pl⦄ (float x) = rt.truncate x
  to_int ⦃pl⦄ (str s) = pl.int_of_str s
  to_int ⦃pl⦄ _ = none

  -- `d.get(k, v)`
  abbrev pub get_or : Fields F → String → Json F → Json F
  get_or d k v = if has_field d k then get_field d k else v

  -- `d.get(k) or v`
  abbrev pub get_or_else : Fields F → String → Json F → Json F
  get_or_else d k v = if truthy (get_field d k) then get_field d k else v

-- `a == b` of byte strings
abbrev pub bytes_eq : List ℕ → List ℕ → Bool
bytes_eq [] [] = true
bytes_eq (a ∷ rest) (b ∷ bs) = nat_beq a b && bytes_eq rest bs
bytes_eq _ _ = false
