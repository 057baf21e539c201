-- ===== src/Tests/Grid/Nodes.antt =====
-- The theorems on the node list, at a coordinator with the nodes "n" and "m".
use nycc_grid.Tests.Toy.{toy_platform, toy_runtime}
use nycc_grid.Tests.Grid.{program, world, start0, answered, run_Reach}
use nycc_grid.Base.{
  drop, ℕ, String, ◌≡◌, refl, ◌⊎◌, inl, inr, true, none, some, List, [], ◌∷◌, map, arith, eq_iff,
  string_eq, pair_eq, nat_eq,
}
use nycc_grid.Base.Int.{pos}
use nycc_grid.Base.Dict.{has, keys}
use nycc_grid.Json.{Fields, get_field, str}
use nycc_grid.Coordinator.State.{Node, Coordinator}
use nycc_grid.Coordinator.Filed.{IsFiled}
use nycc_grid.Coordinator.Listing.{sort_keys, ordered_after, next_cursor}
use nycc_grid.Coordinator.Listing.Walk.{ordered_after-next_cursor}
use nycc_grid.Coordinator.Runs.Filing.{reachable-IsFiled}
use nycc_grid.Client.{nodes}
use nycc_grid.Client.Pages.{ReadsPages, fetch_from}
use nycc_grid.Client.Complete.{nodes-sort_keys}

abbrev some_node : String → Node ℕ
some_node id = record {
  node_id = id;
  pubkey = str "p";
  verify_key = str "v";
  wattage = 65;
  watts_source = "claimed";
  neighborhood = "harlem";
  last_seen = 1;
}

abbrev two_nodes : Coordinator ℕ
two_nodes = record start0 { nodes = ("n", some_node "n") ∷ ("m", some_node "m") ∷ [] }

two_nodes-IsFiled : IsFiled two_nodes.nodes
unfolding program
two_nodes-IsFiled = (refl, refl, refl, (refl, refl, refl, tt))

known_cases : (c : String) → has two_nodes.nodes c ≡ true → (c ≡ "n") ⊎ (c ≡ "m")
unfolding program
known_cases c h = ground (arith, eq_iff "n" c, eq_iff "m" c, h)

two_nodes-ReadsPages : ReadsPages 1 two_nodes
unfolding program
two_nodes-ReadsPages = record {
  limit_text = refl;
  first_path = refl;
  first_query = refl;
  later_path = λ c h. elim (known_cases c h) [ inl e ↦ rw e refl | inr e ↦ rw e refl ];
  later_query = λ c h. elim (known_cases c h) [ inl e ↦ rw e refl | inr e ↦ rw e refl ];
}

nodes-sort_keys_example :
    (listed : List (Fields ℕ)) × (nodes (fetch_from (λ k. world k "j") two_nodes) (pos 1)
      ≡ some listed)
    × (map (λ d. get_field d "node_id") listed ≡ map str (sort_keys (keys two_nodes.nodes)))
nodes-sort_keys_example =
    nodes-sort_keys (λ k. world k "j") two_nodes 1 (omega arith) (omega arith) two_nodes-ReadsPages
      two_nodes-IsFiled (omega arith)

first_cursor : next_cursor 1 (ordered_after none two_nodes.nodes) ≡ some "m"
unfolding program
first_cursor = refl

ordered_after-next_cursor_example :
    ordered_after (some "m") two_nodes.nodes ≡ drop 1 (ordered_after none two_nodes.nodes)
ordered_after-next_cursor_example =
    ordered_after-next_cursor 1 none "m" two_nodes.nodes two_nodes-IsFiled first_cursor

reachable-IsFiled_example : IsFiled answered.nodes
reachable-IsFiled_example = reachable-IsFiled none answered run_Reach
