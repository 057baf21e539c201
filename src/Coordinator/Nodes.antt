-- ===== src/Coordinator/Nodes.antt =====
-- The node routes of _CoordinatorHandler in pygrid/testkit.py: register, heartbeat, list.
use nycc_grid.Base.{
  if◌then◌else◌, ◌==◌, String, ◌≡◌, refl, ◌⊎◌, inl, inr, true, not, ◌||◌, Option, none, some, [],
  ◌∷◌, nat_eq, string_eq, pair_eq,
}
use nycc_grid.Base.Dict.{put, has}
use nycc_grid.Json.{Fields, get_field, fields, as_str, nonempty, null, bool, str, arr, obj}
use nycc_grid.Runtime.{Runtime, truthy}
use nycc_grid.Protocol.{default_neighborhood, valid_neighborhood}
use nycc_grid.Coordinator.State.{
  Node, Coordinator, Reply, refuse, World, header_matches, touch, float_or, send, crash,
}

-- `_watts_source`: absent, a label, or `_BAD` after its 400.
pub data Declared : Type 0 where
  absent : Declared
  label : String → Declared
  bad : Declared

pub Declared-cases : (v : Declared) → (v ≡ absent) ⊎ (((x : String) × (v ≡ label x)) ⊎ (v ≡ bad))
Declared-cases absent = inl refl
Declared-cases (label x) = inr (inl (x, refl))
Declared-cases bad = inr (inr refl)

abbrev pub watts_source_error : String
watts_source_error = "watts_source must be one of ('claimed', 'measured')"

module _ {F : Type 0} where
  unfoldable pub declared_source : Fields F → Declared
  declared_source body = elim (get_field body "watts_source") [
    | null ↦ absent
    | str s ↦ if s == "claimed" || s == "measured" then label s else bad
    | _ ↦ bad
  ]

  -- The neighborhood that a register body files the node under; none is the 400.
  unfoldable pub declared_neighborhood : Fields F → Option String
  declared_neighborhood body = elim (get_field body "neighborhood") [
    | null ↦ some default_neighborhood
    | str s ↦ if valid_neighborhood {F = F} (str s) then some s else none
    | _ ↦ none
  ]

module _ {F : Type 0} ⦃rt : Runtime F⦄ where
  -- The node that `_register` files; none is the exception of `_f`.
  unfoldable pub registered_node : F → String → String → String → Fields F → Option (Node F)
  registered_node time node_id neighborhood source body =
      elim (float_or (get_field body "wattage") rt.zero) [
        | none ↦ none
        | some watts ↦ some (record {
          node_id = node_id;
          pubkey = get_field body "pubkey";
          verify_key = get_field body "verify_key";
          wattage = watts;
          watts_source = source;
          neighborhood = neighborhood;
          last_seen = time;
        })
      ]

  abbrev pub file_node :
      F → String → String → String → Fields F → Coordinator F → Coordinator F × Reply F
  file_node time node_id neighborhood source body s =
      elim (registered_node time node_id neighborhood source body) [
        | none ↦ (s, crash)
        | some node ↦ (
          record s { nodes = put s.nodes node_id node },
          send 200 (
              fields (
                ("ok", bool true)
                ∷ ("node_id", str node_id)
                ∷ ("rotated", bool (has s.nodes node_id))
                ∷ [])),
        )
      ]

  abbrev pub file_declared :
      World F → String → String → Fields F → Coordinator F → Coordinator F × Reply F
  file_declared w node_id neighborhood body s = elim (declared_source body) [
    | absent ↦ file_node w.time node_id neighborhood "claimed" body s
    | label source ↦ file_node w.time node_id neighborhood source body s
    | bad ↦ (s, refuse 400 watts_source_error)
  ]

  unfoldable pub register : World F → Fields F → Coordinator F → Coordinator F × Reply F
  register w body s = elim (as_str (get_field body "node_id")) [
    | none ↦ (s, refuse 400 "node_id, pubkey and verify_key are required")
    | some node_id ↦
        if not (nonempty node_id)
          || not (truthy (get_field body "pubkey"))
          || not (truthy (get_field body "verify_key"))
        then (s, refuse 400 "node_id, pubkey and verify_key are required")
        else elim (declared_neighborhood body) [
          | none ↦ (s, refuse 400 "invalid neighborhood")
          | some neighborhood ↦ file_declared w node_id neighborhood body s
        ]
  ]

  -- `mock.touch(node_id, _f(body.get("wattage")), watts_source)` and the answer.
  abbrev pub beat : F → String → Option String → Fields F → Coordinator F → Coordinator F × Reply F
  beat time node_id source body s = elim (float_or (get_field body "wattage") rt.zero) [
    | none ↦ (s, crash)
    | some watts ↦ (
      touch time node_id (some watts) source s,
      send 200 (fields (("ok", bool true) ∷ ("node_id", str node_id) ∷ [])),
    )
  ]

  abbrev pub heartbeat_known :
      World F → Option String → String → Fields F → Coordinator F → Coordinator F × Reply F
  heartbeat_known w header_id node_id body s =
      if not (header_matches header_id node_id)
      then (s, refuse 400 "node_id header does not match body")
      else elim (declared_source body) [
        | absent ↦ beat w.time node_id none body s
        | label source ↦ beat w.time node_id (some source) body s
        | bad ↦ (s, refuse 400 watts_source_error)
      ]

  -- An array or an object is unhashable: the test `node_id not in mock.nodes` raises on it.
  unfoldable pub heartbeat :
      World F → Option String → Fields F → Coordinator F → Coordinator F × Reply F
  heartbeat w header_id body s = elim (get_field body "node_id") [
    | arr xs ↦ (s, crash)
    | obj d ↦ (s, crash)
    | str node_id ↦
        if has s.nodes node_id
        then heartbeat_known w header_id node_id body s
        else (s, refuse 404 "unknown node_id, re-register")
    | _ ↦ (s, refuse 404 "unknown node_id, re-register")
  ]
