-- ===== src/Client/Line.antt =====
-- `format_receipt` of pygrid/client.py: the line that the command prints after a run.
use nycc_grid.Base.{if◌then◌else◌, String, Bool, not, Option, none, some}
use nycc_grid.Json.{Json, Fields, get_field, str, obj}
use nycc_grid.Text.{◌>>=◌, to_str, get_or_else}
use nycc_grid.Runtime.{Platform, Runtime, truthy}
use nycc_grid.Crypto.{◌+++◌}
use nycc_grid.Coordinator.State.{float_or}

module _ {F : Type 0} ⦃rt : Runtime F⦄ where
  -- `_finite` with its default of 0.0; none is the OverflowError of an int beyond the floats.
  unfoldable pub finite : Json F → Option F
  finite value = do out ← float_or value rt.zero; some (if rt.is_finite out then out else rt.zero)

module _ {F : Type 0} ⦃pl : Platform⦄ ⦃rt : Runtime F⦄ where
  -- `format_receipt`; none is an exception.
  unfoldable pub format_receipt : Option (Fields F) → Bool → Option String
  format_receipt none verified = some "receipt: missing"
  format_receipt (some receipt) verified =
      if not (truthy (obj receipt))
      then some "receipt: missing"
      else if not verified
      then some "receipt: FAILED VERIFICATION"
      else do
        duration ← finite (get_field receipt "duration_ms")
        ms ← rt.truncate duration
        watts ← finite (get_field receipt "watts")
        some (
            "receipt: "
            +++ to_str (get_or_else receipt "node_id" (str "?"))
            +++ ", "
            +++ pl.str_of_int ms
            +++ "ms, "
            +++ rt.format1 watts
            +++ "w "
            +++ to_str (get_or_else receipt "watts_source" (str "?"))
            +++ ", verified")
