-- ===== src/Club/Issue.antt =====
-- Cards from `issue` of pygrid/club.py against `check_card`, and the header codec.
use nycc_grid.Base.{if◌then◌else◌, ◌≤◌, String, ◌≡◌, true, Option, none, some, arith}
use nycc_grid.Base.Int.{ℤ, abs}
use nycc_grid.Json.{Fields, nonempty, obj}
use nycc_grid.Runtime.{Bytes, Platform, Runtime}
use nycc_grid.Crypto.{b64e, b64d, sign, verify}
use nycc_grid.Club.{
  max_safe_int, issued_ok, issued_card, card_bytes, check_fields, check_card, issue,
}

module _ {F : Type 0} ⦃pl : Platform⦄ ⦃rt : Runtime F⦄ (sign_b64 verify_b64 member key : String)
    (issued : Option String) (serial : Option ℤ) (now : String) (seconds : ℤ) where
  abbrev the_card : Fields F
  the_card = issued_card member key issued serial now seconds

  -- A card with a well formed date and an exact serial, issued under a signing key, passes
  -- `check_card` under the verify key of the pair, if that key accepts the signature made and
  -- the signature survives base64 as a text that is not empty.
  pub check_card-issue :
      (doc : Fields F) (sig : Bytes)
      → issue sign_b64 member key issued serial now seconds ≡ some doc
      → issued_ok (elim issued [ none ↦ now | some s ↦ if nonempty s then s else now ]) ≡ true
      → abs (elim serial [ none ↦ seconds | some z ↦ z ]) ≤ max_safe_int
      → sign sign_b64 (card_bytes the_card) ≡ some sig
      → verify verify_b64 (card_bytes the_card) sig ≡ true
      → b64d (b64e sig) ≡ some sig
      → nonempty (b64e sig) ≡ true
      → check_card verify_b64 (obj doc) ≡ none
  unfolding check_card check_fields issue issued_card
  check_card-issue doc sig made dated exact signed good text some_text = ground arith
