-- ===== src/Base/Eq.antt =====
-- Equality tests, by type: `==` on the program's keys.
use Prim.Native.Nat.{ℕ}
use Prim.Native.String.{String}
use text.Mathlib.Text.{◌==◌ as str_eq}
use text.Mathlib.TextEquality.{eq_iff}
use mathlib.Core.Path.{◌≡◌}
use mathlib.Core.Logic.{◌↔◌}
use mathlib.Core.Bool.{Bool, true, ◌&&◌}
use native.Mathlib.Omega.{arith}
use nycc_grid.Base.Tests.{nat_beq}

pub nat_beq_iff : (m n : ℕ) → (nat_beq m n ≡ true) ↔ (m ≡ n)
nat_beq_iff m n = ground arith

abbrev pub pair_beq : String × String → String × String → Bool
pair_beq (a, b) (c, d) = str_eq a c && str_eq b d

pub pair_beq_iff : (p q : String × String) → (pair_beq p q ≡ true) ↔ (p ≡ q)
pair_beq_iff (a, b) (c, d) = ground (arith, eq_iff a c, eq_iff b d)

-- A test on a type of keys that decides its paths.
pub record Eq {ℓ} (Key : Type ℓ) : Type ℓ where
  pub same_key : Key → Key → Bool
  pub same_key_iff : (j k : Key) → (same_key j k ≡ true) ↔ (j ≡ k)

abbrev pub ◌==◌ {ℓ} : {Key : Type ℓ} ⦃keys : Eq Key⦄ → Key → Key → Bool
◌==◌ ⦃keys⦄ = keys.same_key

infix 50 ◌==◌
instance abbrev pub string_eq : Eq String
string_eq = record { same_key = str_eq; same_key_iff = eq_iff }

-- The keys that are pairs of strings.
instance abbrev pub pair_eq : Eq (String × String)
pair_eq = record { same_key = pair_beq; same_key_iff = pair_beq_iff }

instance abbrev pub nat_eq : Eq ℕ
nat_eq = record { same_key = nat_beq; same_key_iff = nat_beq_iff }
