-- ===== src/Client/Choice.antt =====
-- `pick_node` and `_node_record` of GridClient in pygrid/client.py.
pub mod Least
use nycc_grid.Base.{if◌then◌else◌, keep, ℕ, String, Bool, Option, none, some, List, [], ◌∷◌}
use nycc_grid.Base.TextOrder.{text_ltb}
use nycc_grid.Json.{Json, Fields, get_field, float, str}
use nycc_grid.Text.{◌>>=◌, to_str, get_or}
use nycc_grid.Runtime.{Platform, Runtime, truthy}
use nycc_grid.Coordinator.State.{float_or}
use nycc_grid.Client.{nodes_page_limit, find_node, nodes}
use nycc_grid.Base.Int.{pos}

module _ {F : Type 0} ⦃rt : Runtime F⦄ where
  -- `_as_float`; none is the OverflowError of an int beyond the floats, which it does not catch.
  unfoldable pub as_float : Json F → Option F
  as_float value = float_or value rt.infinity

  -- The key of `min` in `pick_node`.
  unfoldable pub node_key : Fields F → Option (F × String)
  node_key n = do
    watts ← as_float (get_field n "wattage")
    some (watts, to_str (get_or n "node_id" (str "")))

  -- `a < b` of two keys, which are tuples.
  unfoldable pub key_ltb : F × String → F × String → Bool
  key_ltb (x, a) (y, b) = if rt.same (float x) (float y) then text_ltb a b else rt.lt x y

  -- The nodes with their keys, in order.
  unfoldable pub keyed : List (Fields F) → Option (List ((F × String) × Fields F))
  keyed [] = some []
  keyed (n ∷ ns) = do key ← node_key n; rest ← keyed ns; some ((key, n) ∷ rest)

  -- `min`: a later element replaces the best so far only where its key is smaller.
  unfoldable pub least_from :
      (F × String) × Fields F → List ((F × String) × Fields F) → (F × String) × Fields F
  least_from best [] = best
  least_from best (n ∷ ns) = least_from (if key_ltb n.0 best.0 then n else best) ns

  abbrev pub least : List ((F × String) × Fields F) → Option (Fields F)
  least [] = none
  least (n ∷ ns) = some (least_from n ns).1

  abbrev pub is_alive : Fields F → Bool
  is_alive n = truthy (get_field n "alive")

  -- `pick_node` on the list that `nodes` returned; none is an exception.
  unfoldable pub pick_node : List (Fields F) → Option (Fields F)
  pick_node listed = do entries ← keyed (keep is_alive listed); least entries

module _ {F : Type 0} ⦃pl : Platform⦄ ⦃rt : Runtime F⦄
    (fetch : ℕ → String → Option (Fields F)) where
  -- `_node_record`; none is an exception.
  unfoldable pub node_record : Option String → Option (Fields F)
  node_record to_node = do
    listed ← nodes fetch (pos nodes_page_limit)
    elim to_node [ none ↦ pick_node listed | some node_id ↦ find_node (str node_id) listed ]
