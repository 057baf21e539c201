-- ===== src/Coordinator/Listing.antt =====
-- The read side of MockCoordinator in pygrid/testkit.py: the node list, page by page, and the
-- public counters.
pub mod Pages
pub mod Walk
use nycc_grid.Base.TextOrder.{text_ltb}
use nycc_grid.Base.{
  ltb, leb, if◌then◌else◌, length, take, keep, ◌==◌, ℕ, suc, String, true, Option, none, some, List,
  [], ◌∷◌, map, string_eq, pair_eq, nat_eq,
}
use nycc_grid.Base.Int.{ℤ, pos, negsuc}
use nycc_grid.Base.Dict.{Dict, get, put, values, keys}
use nycc_grid.Json.{
  Json, Items, Fields, fields, object, nonempty, bool, int, float, str, arr, obj, nil, cons,
}
use nycc_grid.Runtime.{Platform, Runtime}
use nycc_grid.Protocol.{default_neighborhood}
use nycc_grid.Coordinator.State.{
  default_nodes_limit, nodes_limit_max, Node, Coordinator, Reply, alive, node_view, send,
}

-- `sorted(keys)`, by insertion.
unfoldable pub insert_key : String → List String → List String
insert_key k [] = k ∷ []
insert_key k (j ∷ js) = if text_ltb j k then j ∷ insert_key k js else k ∷ j ∷ js

unfoldable pub sort_keys : List String → List String
sort_keys [] = []
sort_keys (k ∷ ks) = insert_key k (sort_keys ks)

-- `max(1, min(limit, NODES_LIMIT_MAX))`
unfoldable pub page_limit : ℤ → ℕ
page_limit (pos n) = if leb n 1 then 1 else if leb n nodes_limit_max then n else nodes_limit_max
page_limit (negsuc n) = 1

module _ ⦃pl : Platform⦄ where
  -- `_int(query.get("limit", [DEFAULT_NODES_LIMIT])[0], DEFAULT_NODES_LIMIT)`
  unfoldable pub requested_limit : Dict String String → ℤ
  requested_limit query = elim (get query "limit") [
    | none ↦ pos default_nodes_limit
    | some s ↦ elim (pl.int_of_str s) [ none ↦ pos default_nodes_limit | some z ↦ z ]
  ]

module _ {F : Type 0} where
  -- `[d[k] for k in ks]`
  unfoldable pub lookup_all : Dict String (Node F) → List String → List (Node F)
  lookup_all d [] = []
  lookup_all d (k ∷ ks) =
      let rest = lookup_all d ks in elim (get d k) [ none ↦ rest | some n ↦ n ∷ rest ]

  -- The nodes behind the cursor, in the order of their ids; an empty cursor is none.
  unfoldable pub ordered_after : Option String → Dict String (Node F) → List (Node F)
  ordered_after none nodes = lookup_all nodes (sort_keys (keys nodes))
  ordered_after (some cursor) nodes =
      let ordered = lookup_all nodes (sort_keys (keys nodes)) in
      if nonempty cursor then keep (λ n. text_ltb cursor n.node_id) ordered else ordered

  abbrev pub last_id : List (Node F) → Option String
  last_id [] = none
  last_id (n ∷ []) = some n.node_id
  last_id (n ∷ m ∷ ns) = last_id (m ∷ ns)

  -- The cursor of a page: the id of its last node, if nodes are left.
  unfoldable pub next_cursor : ℕ → List (Node F) → Option String
  next_cursor limit ordered =
      if ltb limit (length ordered) then last_id (take limit ordered) else none

module _ {F : Type 0} ⦃rt : Runtime F⦄ where
  abbrev pub views : F → List (Node F) → Items F
  views now [] = nil
  views now (n ∷ ns) = cons (obj (node_view now n)) (views now ns)

  -- `_list_nodes`, at one reading of the clock for all views.
  unfoldable pub list_nodes : ⦃pl : Platform⦄ → F → Dict String String → Coordinator F → Reply F
  list_nodes now query s =
      let limit = page_limit (requested_limit query) in
      let ordered = ordered_after (get query "cursor") s.nodes in
      let page = arr (views now (take limit ordered)) in
      elim (next_cursor limit ordered) [
        | none ↦ send 200 (fields (("nodes", page) ∷ []))
        | some cursor ↦ send 200 (fields (("nodes", page) ∷ ("cursor", str cursor) ∷ []))
      ]

  -- `round(sum(...), 1)`, which is the int 0 for no terms.
  abbrev pub rounded_sum : List F → Json F
  rounded_sum [] = int (pos 0)
  rounded_sum (x ∷ xs) = float (rt.round1 (rt.sum (x ∷ xs)))

  abbrev hood_name : Node F → String
  hood_name n = if nonempty n.neighborhood then n.neighborhood else default_neighborhood

  -- The loop over `hoods`: nodes and watts for each neighborhood.
  unfoldable pub tally : Dict String (ℕ × F) → List (Node F) → Dict String (ℕ × F)
  tally hoods [] = hoods
  tally hoods (n ∷ ns) =
      let old : ℕ × F = elim (get hoods (hood_name n)) [ none ↦ (0, rt.zero) | some v ↦ v ] in
      tally (put hoods (hood_name n) (suc old.0, rt.add old.1 n.wattage)) ns

  unfoldable pub hood_items : Dict String (ℕ × F) → List String → Items F
  hood_items hoods [] = nil
  hood_items hoods (k ∷ ks) =
      let rest = hood_items hoods ks in
      elim (get hoods k) [
        | none ↦ rest
        | some v ↦
            cons
              (object (
                ("name", str k) ∷ ("nodes", int (pos v.0)) ∷ ("watts", float (rt.round1 v.1)) ∷ []))
              rest
      ]

  -- `stats`, at one reading of the clock: the nodes that are alive then.
  unfoldable pub stats : F → Coordinator F → Fields F
  stats now s =
      let living = keep (alive now) (values s.nodes) in
      let hoods = tally [] living in
      fields (
        ("ok", bool true)
        ∷ ("nodes_alive", int (pos (length living)))
        ∷ ("watts", rounded_sum (map (λ n. n.wattage) living))
        ∷ (
          "watts_measured",
          rounded_sum (map (λ n. n.wattage) (keep (λ n. n.watts_source == "measured") living)),
        )
        ∷ ("jobs_done", int (pos s.jobs_done))
        ∷ ("neighborhoods", arr (hood_items hoods (sort_keys (keys hoods))))
        ∷ [])
