-- ===== src/Client/Complete.antt =====
-- `GridClient.nodes` of pygrid/client.py against the node table of the coordinator of
-- pygrid/testkit.py.
use nycc_grid.Base.{
  Option-cases, length, All, ℕ, suc, ◌*◌, ◌≤◌, ◌<◌, String, ◌≡◌, refl, ap, ◌∙◌, inl, inr, true,
  none, some, List, [], ◌∷◌, map, arith, eq_iff, string_eq, pair_eq, nat_eq,
}
use nycc_grid.Base.Int.{pos}
use nycc_grid.Base.Dict.{Dict, get, has, keys}
use nycc_grid.Json.{Fields, get_field, str}
use nycc_grid.Runtime.{Platform, Runtime}
use nycc_grid.Coordinator.State.{Node, Coordinator, World}
use nycc_grid.Coordinator.Filed.{IsFiled, get-IsFiled}
use nycc_grid.Coordinator.Listing.{insert_key, sort_keys, lookup_all, ordered_after}
use nycc_grid.Coordinator.Listing.Pages.{All-sort_keys, lookup_all-some}
use nycc_grid.Client.{max_node_pages, nodes}
use nycc_grid.Client.Pages.{ids, first_page, ReadsPages, fetch_from, first_IsPage}
use nycc_grid.Client.Walk.{walk_from}

length-insert_key : (k : String) (ks : List String) → length (insert_key k ks) ≡ suc (length ks)
unfolding insert_key
length-insert_key k [] = refl
length-insert_key k (j ∷ js) = ground (arith, length-insert_key k js)

length-sort_keys : (ks : List String) → length (sort_keys ks) ≡ length ks
unfolding sort_keys
length-sort_keys [] = refl
length-sort_keys (k ∷ ks) = omega (arith, length-insert_key k (sort_keys ks), length-sort_keys ks)

module _ {F : Type 0} where
  length-keys : (d : Dict String (Node F)) → length (keys d) ≡ length d
  length-keys [] = refl
  length-keys (e ∷ d) = ap suc (length-keys d)

  length-lookup_all-le :
      (d : Dict String (Node F)) (ks : List String) → length (lookup_all d ks) ≤ length ks
  unfolding lookup_all
  length-lookup_all-le d [] = omega arith
  length-lookup_all-le d (k ∷ ks) = ground (arith, length-lookup_all-le d ks)

  length-ordered_after-le : (d : Dict String (Node F)) → length (ordered_after none d) ≤ length d
  unfolding ordered_after
  length-ordered_after-le d =
      omega (
        arith,
        length-lookup_all-le d (sort_keys (keys d)),
        length-sort_keys (keys d),
        length-keys d,
      )

  All-has-more :
      (j : String) (n : Node F) (d : Dict String (Node F)) (ks : List String)
      → All (λ k. has d k ≡ true) ks
      → All (λ k. has ((j, n) ∷ d) k ≡ true) ks
  unfolding get
  All-has-more j n d [] a = tt
  All-has-more j n d (k ∷ ks) a = (ground (arith, a.0), All-has-more j n d ks a.1)

  All-has-keys : (d : Dict String (Node F)) → All (λ k. has d k ≡ true) (keys d)
  unfolding get
  All-has-keys [] = tt
  All-has-keys ((j, n) ∷ d) =
      (ground (arith, eq_iff j j), All-has-more j n d (keys d) (All-has-keys d))

  ids-lookup_all :
      (d : Dict String (Node F)) (ks : List String)
      → IsFiled d
      → All (λ k. has d k ≡ true) ks
      → ids (lookup_all d ks) ≡ map str ks
  unfolding lookup_all
  ids-lookup_all d [] f a = refl
  ids-lookup_all d (k ∷ ks) f a = elim (Option-cases (get d k)) [
    | inl e ↦ absurd (ground (arith, a.0, e))
    | inr (n, e) ↦
        ap ids (lookup_all-some d k ks n e)
        ∙ ap (λ i. str i ∷ ids (lookup_all d ks)) (get-IsFiled d k n f e).0
        ∙ ap (λ js. str k ∷ js) (ids-lookup_all d ks f a.1)
  ]

  ids-ordered_after :
      (d : Dict String (Node F))
      → IsFiled d
      → ids (ordered_after none d) ≡ map str (sort_keys (keys d))
  unfolding ordered_after
  ids-ordered_after d f =
      ids-lookup_all d (sort_keys (keys d)) f
        (All-sort_keys (λ k. has d k ≡ true) (keys d) (All-has-keys d))

module _ {F : Type 0} ⦃pl : Platform⦄ ⦃rt : Runtime F⦄ where
  -- On a coordinator whose nodes are filed once, under their own ids, the walk of the client with
  -- a page size from 1 to 200 ends without an error and lists each stored node exactly once, in
  -- the order of the ids, if the pages that it may ask for hold them all and its paths are read as
  -- they were written. The clock may differ from page to page.
  pub nodes-sort_keys :
      (w : ℕ → World F) (s : Coordinator F) (limit : ℕ)
      → 0 < limit
      → limit ≤ 200
      → ReadsPages limit s
      → IsFiled s.nodes
      → length s.nodes ≤ max_node_pages * limit
      → (listed : List (Fields F)) × (nodes (fetch_from w s) (pos limit) ≡ some listed)
        × (map (λ d. get_field d "node_id") listed ≡ map str (sort_keys (keys s.nodes)))
  unfolding nodes
  nodes-sort_keys w s limit low high r f short =
      let fits : length (ordered_after none s.nodes) ≤ max_node_pages * limit =
        omega (arith, short, length-ordered_after-le s.nodes) in
      let (listed, walked, same) =
        walk_from w s limit max_node_pages 0 (first_page limit) none low high r f
          (first_IsPage limit s r) fits in
      (listed, walked, same ∙ ids-ordered_after s.nodes f)
