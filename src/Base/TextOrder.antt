-- ===== src/Base/TextOrder.antt =====
-- The order of strings by code points: a strict total order.
use Prim.Native.Nat.{Ordering, compare as compare_ℕ}
use Prim.Native.Char.{Char, code}
use Prim.Native.String.{String, compare as text_compare, then}
use Prim.Native.String.compare as clauses
use mathlib.Core.Path.{◌≡◌, refl, ap, ◌∙◌}
use mathlib.Core.Bool.{Bool, true, false, ◌&&◌, ◌||◌}
use native.Mathlib.Omega.{arith}
use text.Mathlib.TextEquality.{codes_equal}
use nycc_grid.Base.Tests.{ltb, nat_beq}

abbrev is_lt : Ordering → Bool
is_lt o = elim o [ Ordering.lt ↦ true | _ ↦ false ]

abbrev is_eq : Ordering → Bool
is_eq o = elim o [ Ordering.eq ↦ true | _ ↦ false ]

-- `a < b`
abbrev pub text_ltb : String → String → Bool
text_ltb a b = elim (text_compare a b) [ Ordering.lt ↦ true | _ ↦ false ]

is_lt-then : (o p : Ordering) → is_lt (then o p) ≡ (is_lt o || (is_eq o && is_lt p))
is_lt-then Ordering.lt p = refl
is_lt-then Ordering.eq p = refl
is_lt-then Ordering.gt p = refl

text_ltb-cons :
    (c d : Char) (a b : String)
    → text_ltb (String.◌∷◌ c a) (String.◌∷◌ d b)
      ≡ (ltb (code c) (code d) || (nat_beq (code c) (code d) && text_ltb a b))
text_ltb-cons c d a b =
    ap is_lt (λ i. clauses.cons-cons c d a b i)
    ∙ is_lt-then (compare_ℕ (code c) (code d)) (text_compare a b)

text_ltb-nil : (c : Char) (a : String) → text_ltb String.[] (String.◌∷◌ c a) ≡ true
text_ltb-nil c a = ap is_lt (λ i. clauses.nil-cons c a i)

text_ltb_nil : (a : String) → text_ltb a String.[] ≡ false
text_ltb_nil String.[] = refl
text_ltb_nil (String.◌∷◌ c a) = ap is_lt (λ i. clauses.cons-nil c a i)

pub text_ltb_irrefl : (a : String) → text_ltb a a ≡ false
text_ltb_irrefl String.[] = refl
text_ltb_irrefl (String.◌∷◌ c a) = ground (arith, text_ltb-cons c c a a, text_ltb_irrefl a)

pub text_ltb_trans :
    (a b c : String) → text_ltb a b ≡ true → text_ltb b c ≡ true → text_ltb a c ≡ true
text_ltb_trans a b String.[] h k = ground (arith, text_ltb_nil b)
text_ltb_trans a String.[] (String.◌∷◌ z c) h k = ground (arith, text_ltb_nil a)
text_ltb_trans String.[] (String.◌∷◌ y b) (String.◌∷◌ z c) h k = text_ltb-nil z c
text_ltb_trans (String.◌∷◌ x a) (String.◌∷◌ y b) (String.◌∷◌ z c) h k = ground (
  arith,
  text_ltb-cons x y a b,
  text_ltb-cons y z b c,
  text_ltb-cons x z a c,
  text_ltb_trans a b c,
)

is_eq_path : (o : Ordering) → is_eq o ≡ true → o ≡ Ordering.eq
is_eq_path Ordering.lt h = absurd (ground arith)
is_eq_path Ordering.eq h = refl
is_eq_path Ordering.gt h = absurd (ground arith)

pub text_ltb_total : (a b : String) → text_ltb a b ≡ false → text_ltb b a ≡ false → a ≡ b
text_ltb_total String.[] String.[] h k = refl
text_ltb_total String.[] (String.◌∷◌ d b) h k = absurd (ground (arith, text_ltb-nil d b))
text_ltb_total (String.◌∷◌ c a) String.[] h k = absurd (ground (arith, text_ltb-nil c a))
text_ltb_total (String.◌∷◌ c a) (String.◌∷◌ d b) h k =
    let same : nat_beq (code c) (code d) ≡ true =
      ground (arith, text_ltb-cons c d a b, text_ltb-cons d c b a) in
    let tail : a ≡ b =
      text_ltb_total a b (ground (arith, same, text_ltb-cons c d a b))
        (ground (arith, same, text_ltb-cons d c b a)) in
    let head : c ≡ d = codes_equal c d (is_eq_path (compare_ℕ (code c) (code d)) same) in
    λ i. String.◌∷◌ (head i) (tail i)
