-- ===== src/Crypto/Wire.antt =====
-- `js_round_trip` of pygrid/testkit.py: a document with its integral floats as ints. It keeps ints
-- of any size, where a javascript server keeps those up to 2^53 - 1.
use nycc_grid.Base.{none, some}
use nycc_grid.Json.{
  Json, Items, Fields, null, bool, int, float, str, arr, obj, nil, cons, end, field,
}
use nycc_grid.Runtime.{Runtime}

module _ {F : Type 0} ⦃rt : Runtime F⦄ where
  unfoldable mutual
    pub js_round_trip : Json F → Json F
    js_round_trip (float x) = elim (rt.integral x) [ some z ↦ int z | none ↦ float x ]
    js_round_trip (obj d) = obj (round_trip_fields d)
    js_round_trip (arr xs) = arr (round_trip_items xs)
    js_round_trip null = null
    js_round_trip (bool b) = bool b
    js_round_trip (int z) = int z
    js_round_trip (str s) = str s

    pub round_trip_items : Items F → Items F
    round_trip_items nil = nil
    round_trip_items (cons v xs) = cons (js_round_trip v) (round_trip_items xs)

    pub round_trip_fields : Fields F → Fields F
    round_trip_fields end = end
    round_trip_fields (field k v d) = field k (js_round_trip v) (round_trip_fields d)
