-- ===== src/Club/Fingerprint.antt =====
-- The fingerprint of a key, of pygrid/club.py: `_fingerprint_groups`, `fingerprint`,
-- `fingerprint_lines`.
pub mod Shape
use mathlib.Core.Option
use Prim.Native.Char.{Char}
use nycc_grid.Base.{
  length, take, drop, All, mul_suc, take-drop, length-drop, ℕ, zero, suc, ◌*◌, ◌≤◌, String, ◌≡◌,
  refl, ap, ◌∙◌, Option, List, [], ◌∷◌, ◌++◌, map, arith,
}
use nycc_grid.Runtime.{Platform}
use nycc_grid.Crypto.{◌+++◌}

-- `[xs[i:i + width] for i in range(0, len(xs), width)]`; the first number is len(xs), or more.
unfoldable pub chunks {ℓ} : {A : Type ℓ} → ℕ → ℕ → List A → List (List A)
chunks zero width xs = []
chunks (suc n) width [] = []
chunks (suc n) width (x ∷ xs) = take width (x ∷ xs) ∷ chunks n width (drop width (x ∷ xs))

-- A text as the list of its characters, and back.
abbrev pub chars : String → List Char
chars String.[] = []
chars (String.◌∷◌ c s) = c ∷ chars s

abbrev pub text : List Char → String
text [] = String.[]
text (c ∷ cs) = String.◌∷◌ c (text cs)

-- `" ".join(parts)`
unfoldable pub join_spaces : List String → String
join_spaces [] = ""
join_spaces (part ∷ []) = part
join_spaces (part ∷ next ∷ parts) = part +++ " " +++ join_spaces (next ∷ parts)

-- The lists of a list, one after the other.
abbrev pub concat {ℓ} : {A : Type ℓ} → List (List A) → List A
concat [] = []
concat (xs ∷ rest) = xs ++ concat rest

module _ ⦃pl : Platform⦄ where
  -- The digest of `_fingerprint_groups`, as characters; none is an exception of base64.
  unfoldable pub key_digest : String → Option (List Char)
  key_digest verify_b64 =
      Option.map (λ raw. chars (pl.upper (pl.sha256_hex raw))) (pl.b64decode_lenient verify_b64)

  -- `_fingerprint_groups`
  unfoldable pub fingerprint_groups : String → Option (List String)
  fingerprint_groups verify_b64 =
      Option.map (λ digest. map text (chunks (length digest) 4 digest)) (key_digest verify_b64)

  unfoldable pub fingerprint : String → Option String
  fingerprint verify_b64 = Option.map join_spaces (fingerprint_groups verify_b64)

  -- `fingerprint_lines` with its rows of `per_line` groups, which is not 0.
  unfoldable pub fingerprint_lines : String → ℕ → Option (List String)
  fingerprint_lines verify_b64 per_line =
      Option.map (λ groups. map join_spaces (chunks (length groups) per_line groups))
        (fingerprint_groups verify_b64)

module _ {ℓ} {A : Type ℓ} where
  -- The pieces of a list, put together again, are the list.
  pub concat-chunks :
      (n width : ℕ) (xs : List A) → 1 ≤ width → length xs ≤ n → concat (chunks n width xs) ≡ xs
  unfolding chunks
  concat-chunks zero width [] w h = refl
  concat-chunks zero width (x ∷ xs) w h = absurd (omega arith)
  concat-chunks (suc n) width [] w h = refl
  concat-chunks (suc n) width (x ∷ xs) w h =
      let rest = drop width (x ∷ xs) in
      ap (λ ys. take width (x ∷ xs) ++ ys)
        (concat-chunks n width rest w (omega (arith, length-drop width (x ∷ xs), w, h)))
      ∙ take-drop width (x ∷ xs)

  length-take : (n : ℕ) (xs : List A) → n ≤ length xs → length (take n xs) ≡ n
  length-take zero xs h = omega arith
  length-take (suc n) [] h = absurd (omega arith)
  length-take (suc n) (x ∷ xs) h = omega (arith, length-take n xs)

  -- A list of a whole number of pieces has that many pieces, each of the full width.
  pub chunks-exact :
      (q n width : ℕ) (xs : List A)
      → 1 ≤ width
      → length xs ≤ n
      → length xs ≡ q * width
      → (length (chunks n width xs) ≡ q) × All (λ c. length c ≡ width) (chunks n width xs)
  unfolding chunks
  chunks-exact zero zero width [] w h e = (refl, tt)
  chunks-exact zero (suc n) width [] w h e = (refl, tt)
  chunks-exact zero n width (x ∷ xs) w h e = absurd (omega (arith, e))
  chunks-exact (suc q) n width [] w h e = absurd (omega (arith, e, mul_suc q width))
  chunks-exact (suc q) zero width (x ∷ xs) w h e = absurd (omega arith)
  chunks-exact (suc q) (suc n) width (x ∷ xs) w h e =
      let rest = drop width (x ∷ xs) in
      let left = length-drop width (x ∷ xs) in
      let (many, all) =
        chunks-exact q n width rest w (omega (arith, left, w, h))
          (omega (arith, left, e, mul_suc q width)) in
      (ap suc many, (length-take width (x ∷ xs) (omega (arith, e, mul_suc q width)), all))
