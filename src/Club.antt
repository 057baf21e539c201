-- ===== src/Club.antt =====
-- pygrid/club.py: membership cards. A card document is signed by the club, and names the key that
-- its member signs requests with.
pub mod Issue
pub mod Wire
pub mod Fingerprint
pub mod Files
pub mod Commands
pub mod Art
pub mod Svg
use mathlib.Core.Option
use nycc_grid.Base.{
  ltb, leb, nat_beq, if◌then◌else◌, is_some, length, ℕ, ◌-◌, ◌*◌, ◌^◌, String, count, Bool, false,
  not, ◌&&◌, Option, none, some, List, [], ◌∷◌,
}
use nycc_grid.Base.Int.{ℤ, abs}
use nycc_grid.Json.{
  Json, Fields, get_field, without_field, fields, as_str, as_obj, nonempty, int, str, obj,
}
use nycc_grid.Runtime.{Bytes, Platform, Runtime}
use nycc_grid.Text.{codes, all}
use nycc_grid.Crypto.{key_bytes, b64e, sign, verify, canonical_json}

abbrev pub member_max : ℕ
member_max = 64

abbrev pub max_card_header : ℕ
max_card_header = 8 * 1024

abbrev pub max_safe_int : ℕ
max_safe_int = 2 ^ 53 - 1

-- The failure codes.
abbrev pub err_card_required : String
err_card_required = "card_required"

abbrev pub err_card_malformed : String
err_card_malformed = "card_malformed"

abbrev pub err_card_invalid : String
err_card_invalid = "card_invalid"

abbrev pub err_card_not_signed : String
err_card_not_signed = "card_not_signed_by_club"

abbrev pub err_member_sig_missing : String
err_member_sig_missing = "member_sig_missing"

abbrev pub err_member_sig_malformed : String
err_member_sig_malformed = "member_sig_malformed"

abbrev pub err_member_sig_expired : String
err_member_sig_expired = "member_sig_expired"

abbrev pub err_member_sig_invalid : String
err_member_sig_invalid = "member_sig_invalid"

abbrev pub err_member_sig_replay : String
err_member_sig_replay = "member_sig_replay"

module _ ⦃pl : Platform⦄ where
  -- `ISSUED_RE.match` on code points. What follows the date may always match nothing.
  unfoldable pub matches_issued : List ℕ → Bool
  matches_issued (a ∷ b ∷ c ∷ d ∷ h1 ∷ e ∷ f ∷ h2 ∷ g ∷ h ∷ rest) =
      all pl.is_decimal (a ∷ b ∷ c ∷ d ∷ [])
      && (nat_beq h1 b'-'
          && (all pl.is_decimal (e ∷ f ∷ [])
              && (nat_beq h2 b'-' && all pl.is_decimal (g ∷ h ∷ []))))
  matches_issued _ = false

  -- `isinstance(member, str) and 1 <= len(member) <= MEMBER_MAX`
  abbrev pub member_length_ok : String → Bool
  member_length_ok member = leb 1 (count member) && leb (count member) member_max

  -- `_is_verify_key` of a string
  abbrev pub is_verify_key_str : String → Bool
  is_verify_key_str s =
      nonempty s
      && elim (pl.b64decode s) [ none ↦ false | some raw ↦ nat_beq (length raw) key_bytes ]

  abbrev pub issued_ok : String → Bool
  issued_ok issued = leb (count issued) 64 && matches_issued (codes issued)

module _ {F : Type 0} where
  -- The card that `issue` writes. `now` is what `_iso_now` returns and `seconds` what
  -- `int(time.time())` does.
  unfoldable pub issued_card : String → String → Option String → Option ℤ → String → ℤ → Fields F
  issued_card member member_verify_b64 issued serial now seconds = fields (
      ("issued", str (elim issued [ none ↦ now | some s ↦ if nonempty s then s else now ]))
      ∷ ("member", str member)
      ∷ ("member_verify_key", str member_verify_b64)
      ∷ ("serial", int (elim serial [ none ↦ seconds | some z ↦ z ]))
      ∷ [])

module _ {F : Type 0} ⦃pl : Platform⦄ where
  abbrev pub valid_member : Json F → Bool
  valid_member v = elim (as_str v) [ none ↦ false | some s ↦ member_length_ok s ]

  abbrev pub is_verify_key : Json F → Bool
  is_verify_key v = elim (as_str v) [ none ↦ false | some s ↦ is_verify_key_str s ]

  abbrev pub valid_issued : Json F → Bool
  valid_issued v = elim (as_str v) [ none ↦ false | some s ↦ issued_ok s ]

  -- An int, no bool, within javascript's exact range.
  abbrev pub valid_serial : Json F → Bool
  valid_serial (int z) = leb (abs z) max_safe_int
  valid_serial _ = false

module _ {F : Type 0} ⦃pl : Platform⦄ ⦃rt : Runtime F⦄ where
  -- The card without its signature, in canonical json.
  unfoldable pub card_bytes : Fields F → Bytes
  card_bytes card = canonical_json (obj (without_field "sig" card))

  -- The checks of `check_card` on the card and the decoded signature.
  unfoldable pub check_fields : String → Fields F → Bytes → Option String
  check_fields club_verify_b64 card sig =
      if not (valid_member (get_field card "member"))
      then some err_card_invalid
      else if not (is_verify_key (get_field card "member_verify_key"))
      then some err_card_invalid
      else if not (valid_issued (get_field card "issued"))
      then some err_card_invalid
      else if not (valid_serial (get_field card "serial"))
      then some err_card_invalid
      else if not (verify club_verify_b64 (card_bytes card) sig)
      then some err_card_not_signed
      else none

  -- `check_card`: none is a good card, some code the reason why it is not.
  unfoldable pub check_card : String → Json F → Option String
  check_card club_verify_b64 doc = elim (as_obj doc) [
    | none ↦ some err_card_malformed
    | some d ↦ elim (as_obj (get_field d "card")) [
      | none ↦ some err_card_malformed
      | some card ↦ elim (as_str (get_field d "sig")) [
        | none ↦ some err_card_malformed
        | some sig_b64 ↦
            if not (nonempty sig_b64)
            then some err_card_malformed
            else elim (pl.b64decode sig_b64) [
              | none ↦ some err_card_malformed
              | some sig ↦ check_fields club_verify_b64 card sig
            ]
      ]
    ]
  ]

  unfoldable pub verify_card : String → Json F → Bool
  verify_card club_verify_b64 doc = not (is_some (check_card club_verify_b64 doc))

  -- `issue`: none where it raises.
  unfoldable pub issue :
      String → String → String → Option String → Option ℤ → String → ℤ → Option (Fields F)
  issue club_sign_b64 member member_verify_b64 issued serial now seconds =
      if not (member_length_ok member)
      then none
      else if not (pl.is_printable member)
      then none
      else if not (is_verify_key_str member_verify_b64)
      then none
      else let card = issued_card member member_verify_b64 issued serial now seconds in
        Option.map (λ sig. fields (("card", obj card) ∷ ("sig", str (b64e sig)) ∷ []))
          (sign club_sign_b64 (card_bytes card))

  unfoldable pub encode_card_header : Fields F → String
  encode_card_header doc = b64e (canonical_json (obj doc))

  unfoldable pub decode_card_header : String → Option (Fields F)
  decode_card_header value =
      if not (nonempty value)
      then none
      else if ltb max_card_header (count value)
      then none
      else elim (pl.b64decode value) [
        | none ↦ none
        | some raw ↦ elim (rt.loads raw) [ none ↦ none | some doc ↦ as_obj doc ]
      ]
