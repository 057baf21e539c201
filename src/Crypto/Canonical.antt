-- ===== src/Crypto/Canonical.antt =====
-- What `canonical_json` of pygrid/crypto.py does to a document behind `js_round_trip` of
-- pygrid/testkit.py.
use nycc_grid.Base.{◌≡◌, refl, ap, arith}
use nycc_grid.Json.{
  Json, Items, Fields, null, bool, int, float, str, arr, obj, nil, cons, end, field,
}
use nycc_grid.Runtime.{Platform, Runtime}
use nycc_grid.Crypto.{js_numbers, js_items, js_fields, canonical_json}
use nycc_grid.Crypto.Wire.{js_round_trip, round_trip_items, round_trip_fields}

module _ {F : Type 0} ⦃rt : Runtime F⦄ where
  mutual
    unfolding js_numbers js_round_trip

    js_numbers_after : (v : Json F) → js_numbers (js_round_trip v) ≡ js_numbers v
    js_numbers_after null = refl
    js_numbers_after (bool b) = refl
    js_numbers_after (int z) = refl
    js_numbers_after (float x) = ground arith
    js_numbers_after (str s) = refl
    js_numbers_after (arr xs) = ap arr (js_items_after xs)
    js_numbers_after (obj d) = ap obj (js_fields_after d)

    js_items_after : (xs : Items F) → js_items (round_trip_items xs) ≡ js_items xs
    js_items_after nil = refl
    js_items_after (cons v xs) = cc (js_numbers_after v, js_items_after xs)

    js_fields_after : (d : Fields F) → js_fields (round_trip_fields d) ≡ js_fields d
    js_fields_after end = refl
    js_fields_after (field k v d) = cc (js_numbers_after v, js_fields_after d)

module _ {F : Type 0} ⦃pl : Platform⦄ ⦃rt : Runtime F⦄ where
  -- `js_round_trip`, which turns every integral float of a document into an int and keeps ints of
  -- any size, does not change the canonical bytes that are signed for the document, at any depth:
  -- the canonical form agrees with that independent account of the numbers.
  pub canonical_json-js_round_trip :
      (v : Json F) → canonical_json (js_round_trip v) ≡ canonical_json v
  unfolding canonical_json
  canonical_json-js_round_trip v = ap (λ u. pl.utf8 (rt.dumps_canonical u)) (js_numbers_after v)
