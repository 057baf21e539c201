-- ===== src/Club/Wire.antt =====
-- `check_card` of pygrid/club.py on a card behind js_round_trip of pygrid/testkit.py.
use nycc_grid.Base.{String, ◌≡◌, refl, ap, ◌∙◌, true, false, none, some, arith}
use nycc_grid.Json.{
  Json, Fields, get_field, without_field, as_str, as_obj, nonempty, null, bool, int, float, str,
  arr, obj, end, field,
}
use nycc_grid.Runtime.{Bytes, Platform, Runtime}
use nycc_grid.Crypto.Wire.{js_round_trip, round_trip_fields}
use nycc_grid.Crypto.Canonical.{canonical_json-js_round_trip}
use nycc_grid.Club.{
  member_length_ok, is_verify_key_str, issued_ok, valid_member, is_verify_key, valid_issued,
  valid_serial, card_bytes, check_fields, check_card,
}

module _ {F : Type 0} ⦃rt : Runtime F⦄ where
  get_field-round_trip_fields :
      (d : Fields F) (k : String)
      → get_field (round_trip_fields d) k ≡ js_round_trip (get_field d k)
  unfolding js_round_trip
  get_field-round_trip_fields end k = refl
  get_field-round_trip_fields (field j v d) k = ground (arith, get_field-round_trip_fields d k)

  without_field-round_trip_fields :
      (name : String) (d : Fields F)
      → without_field name (round_trip_fields d) ≡ round_trip_fields (without_field name d)
  unfolding js_round_trip
  without_field-round_trip_fields name end = refl
  without_field-round_trip_fields name (field k v d) =
      ground (arith, without_field-round_trip_fields name d)

  as_str-js_round_trip : (v : Json F) → as_str (js_round_trip v) ≡ as_str v
  unfolding js_round_trip
  as_str-js_round_trip null = refl
  as_str-js_round_trip (bool b) = refl
  as_str-js_round_trip (int z) = refl
  as_str-js_round_trip (float x) = ground arith
  as_str-js_round_trip (str s) = refl
  as_str-js_round_trip (arr xs) = refl
  as_str-js_round_trip (obj d) = refl

  as_obj-js_round_trip :
      (v : Json F) (d : Fields F)
      → as_obj v ≡ some d
      → as_obj (js_round_trip v) ≡ some (round_trip_fields d)
  unfolding js_round_trip
  as_obj-js_round_trip v d h = ground arith

module _ {F : Type 0} ⦃pl : Platform⦄ ⦃rt : Runtime F⦄ where
  valid_serial-js_round_trip :
      (v : Json F) → valid_serial v ≡ true → valid_serial (js_round_trip v) ≡ true
  unfolding js_round_trip
  valid_serial-js_round_trip v h = ground arith

  valid_texts-js_round_trip :
      (v : Json F)
      → (valid_member (js_round_trip v) ≡ valid_member v)
        × (is_verify_key (js_round_trip v) ≡ is_verify_key v)
        × (valid_issued (js_round_trip v) ≡ valid_issued v)
  valid_texts-js_round_trip v = (
    ap (λ o. elim o [ none ↦ false | some s ↦ member_length_ok s ]) (as_str-js_round_trip v),
    ap (λ o. elim o [ none ↦ false | some s ↦ is_verify_key_str s ]) (as_str-js_round_trip v),
    ap (λ o. elim o [ none ↦ false | some s ↦ issued_ok s ]) (as_str-js_round_trip v),
  )

  card_bytes-round_trip_fields : (d : Fields F) → card_bytes (round_trip_fields d) ≡ card_bytes d
  unfolding card_bytes js_round_trip
  card_bytes-round_trip_fields d =
      rw (without_field-round_trip_fields "sig" d)
        (canonical_json-js_round_trip (obj (without_field "sig" d)))

  check_fields-round_trip_fields :
      (key : String) (card : Fields F) (sig : Bytes)
      → check_fields key card sig ≡ none
      → check_fields key (round_trip_fields card) sig ≡ none
  unfolding check_fields
  check_fields-round_trip_fields key card sig h =
      rw
        (
          get_field-round_trip_fields card "member",
          get_field-round_trip_fields card "member_verify_key",
          get_field-round_trip_fields card "issued",
          get_field-round_trip_fields card "serial",
          card_bytes-round_trip_fields card,
          (valid_texts-js_round_trip (get_field card "member")).0,
          (valid_texts-js_round_trip (get_field card "member_verify_key")).1,
          (valid_texts-js_round_trip (get_field card "issued")).2,
        )
        (ground (arith, valid_serial-js_round_trip (get_field card "serial"), h))

  check_card-parts :
      (key : String) (d : Fields F)
      → check_card key (obj d) ≡ none
      → (card : Fields F) × (sig_b64 : String) × (sig : Bytes) × (as_obj (get_field d "card")
          ≡ some card)
        × (as_str (get_field d "sig") ≡ some sig_b64)
        × (nonempty sig_b64 ≡ true)
        × (pl.b64decode sig_b64 ≡ some sig)
        × (check_fields key card sig ≡ none)
  unfolding check_card
  check_card-parts key d h = ground arith

  check_card_of_parts :
      (key : String) (d card : Fields F) (sig_b64 : String) (sig : Bytes)
      → as_obj (get_field d "card") ≡ some card
      → as_str (get_field d "sig") ≡ some sig_b64
      → nonempty sig_b64 ≡ true
      → pl.b64decode sig_b64 ≡ some sig
      → check_fields key card sig ≡ none
      → check_card key (obj d) ≡ none
  unfolding check_card
  check_card_of_parts key d card sig_b64 sig a b c e f = ground arith

  -- A document that passes `check_card` passes it again after `js_round_trip`, which turns every
  -- integral float in it, at any depth, into an int and keeps ints of any size.
  pub check_card-js_round_trip :
      (key : String) (d : Fields F)
      → check_card key (obj d) ≡ none
      → check_card key (js_round_trip (obj d)) ≡ none
  unfolding js_round_trip
  check_card-js_round_trip key d h =
      let (card, sig_b64, sig, hc, hs, filled, hd, good) = check_card-parts key d h in
      check_card_of_parts key (round_trip_fields d) (round_trip_fields card) sig_b64 sig
        (rw (get_field-round_trip_fields d "card")
          (as_obj-js_round_trip (get_field d "card") card hc))
        (rw (get_field-round_trip_fields d "sig") (as_str-js_round_trip (get_field d "sig") ∙ hs))
        filled hd (check_fields-round_trip_fields key card sig good)
