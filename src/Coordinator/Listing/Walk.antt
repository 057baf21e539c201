-- ===== src/Coordinator/Listing/Walk.antt =====
-- A walk over the pages of `_list_nodes` in pygrid/testkit.py, cursor by cursor.
use mathlib.Core.Path.{subst}
use nycc_grid.Base.{
  Bool-cases, Option-cases, take, keep, drop, All, ℕ, String, ◌≡◌, refl, sym, ◌∙◌, inl, inr, Bool,
  true, false, Option, none, some, List, [], ◌∷◌, arith, string_eq, pair_eq, nat_eq,
}
use nycc_grid.Base.Dict.{Dict, get, has, keys}
use nycc_grid.Base.TextOrder.{text_ltb, text_ltb_trans}
use nycc_grid.Json.{nonempty}
use nycc_grid.Coordinator.State.{Node}
use nycc_grid.Coordinator.Filed.{IsFiled, get-IsFiled}
use nycc_grid.Coordinator.Listing.{sort_keys, lookup_all, ordered_after, last_id, next_cursor}
use nycc_grid.Coordinator.Listing.Pages.{
  SortedKeys-sort_keys, Sorted, DistinctKeys-keys, lookup_all-none, lookup_all-some,
  Sorted-lookup_all, after_id, last_id_All, keep_rest,
}

module _ {F : Type 0} where
  abbrev all_nodes : Dict String (Node F) → List (Node F)
  all_nodes d = lookup_all d (sort_keys (keys d))

  Sorted-all_nodes : (d : Dict String (Node F)) → IsFiled d → Sorted (all_nodes d)
  Sorted-all_nodes d f =
      Sorted-lookup_all d (sort_keys (keys d)) f
        (SortedKeys-sort_keys (keys d) (DistinctKeys-keys d f))

  All-keep :
      (P : Node F → Type 0) (p : Node F → Bool) (ns : List (Node F)) → All P ns → All P (keep p ns)
  All-keep P p [] a = tt
  All-keep P p (n ∷ ns) a = elim (Bool-cases (p n)) [
    | inl yes_p ↦ rw yes_p (a.0, All-keep P p ns a.1)
    | inr no_p ↦ rw no_p (All-keep P p ns a.1)
  ]

  Sorted-keep : (p : Node F → Bool) (ns : List (Node F)) → Sorted ns → Sorted (keep p ns)
  Sorted-keep p [] s = tt
  Sorted-keep p (n ∷ ns) s = elim (Bool-cases (p n)) [
    | inl yes_p ↦
        rw yes_p
          (All-keep (λ m. text_ltb n.node_id m.node_id ≡ true) p ns s.0, Sorted-keep p ns s.1)
    | inr no_p ↦ rw no_p (Sorted-keep p ns s.1)
  ]

  keep-keep :
      (b c : String) (ns : List (Node F))
      → text_ltb b c ≡ true
      → keep (after_id c) (keep (after_id b) ns) ≡ keep (after_id c) ns
  keep-keep b c [] h = refl
  keep-keep b c (n ∷ ns) h = ground (arith, text_ltb_trans b c n.node_id h, keep-keep b c ns h)

  All-after_id :
      (b : String) (ns : List (Node F))
      → All (λ m. text_ltb b m.node_id ≡ true) (keep (after_id b) ns)
  All-after_id b [] = tt
  All-after_id b (n ∷ ns) = elim (Bool-cases (after_id b n)) [
    | inl up ↦ rw up (up, All-after_id b ns)
    | inr down ↦ rw down (All-after_id b ns)
  ]

  All-named :
      (d : Dict String (Node F)) (ks : List String)
      → IsFiled d
      → All (λ m. nonempty m.node_id ≡ true) (lookup_all d ks)
  unfolding lookup_all
  All-named d [] f = tt
  All-named d (k ∷ ks) f = elim (Option-cases (get d k)) [
    | inl e ↦
        subst (All (λ m. nonempty m.node_id ≡ true)) (sym (lookup_all-none d k ks e))
          (All-named d ks f)
    | inr (n, e) ↦
        subst (All (λ m. nonempty m.node_id ≡ true)) (sym (lookup_all-some d k ks n e))
          (rw (get-IsFiled d k n f e).0 (get-IsFiled d k n f e).1, All-named d ks f)
  ]

  last_of_cursor :
      (limit : ℕ) (ns : List (Node F)) (c : String)
      → next_cursor limit ns ≡ some c
      → last_id (take limit ns) ≡ some c
  unfolding next_cursor
  last_of_cursor limit ns c h = ground (arith, h)

  after_next :
      (limit : ℕ) (b c : String) (ns : List (Node F))
      → Sorted ns
      → next_cursor limit (keep (after_id b) ns) ≡ some c
      → keep (after_id c) ns ≡ drop limit (keep (after_id b) ns)
  after_next limit b c ns s h =
      let last = last_of_cursor limit (keep (after_id b) ns) c h in
      let up : text_ltb b c ≡ true =
        last_id_All (λ i. text_ltb b i ≡ true) limit (keep (after_id b) ns) c (All-after_id b ns)
          last in
      sym (keep-keep b c ns up)
      ∙ keep_rest limit (keep (after_id b) ns) c (Sorted-keep (after_id b) ns s) last

  after_all :
      (limit : ℕ) (c : String) (d : Dict String (Node F))
      → IsFiled d
      → next_cursor limit (all_nodes d) ≡ some c
      → ordered_after (some c) d ≡ drop limit (all_nodes d)
  unfolding ordered_after
  after_all limit c d f h =
      let last = last_of_cursor limit (all_nodes d) c h in
      let named =
        last_id_All (λ i. nonempty i ≡ true) limit (all_nodes d) c
          (All-named d (sort_keys (keys d)) f) last in
      rw named (keep_rest limit (all_nodes d) c (Sorted-all_nodes d f) last)

  after_some :
      (limit : ℕ) (b c : String) (d : Dict String (Node F))
      → IsFiled d
      → next_cursor limit (keep (after_id b) (all_nodes d)) ≡ some c
      → ordered_after (some c) d ≡ drop limit (keep (after_id b) (all_nodes d))
  unfolding ordered_after
  after_some limit b c d f h =
      let last = last_of_cursor limit (keep (after_id b) (all_nodes d)) c h in
      let named =
        last_id_All (λ i. nonempty i ≡ true) limit (keep (after_id b) (all_nodes d)) c
          (All-keep (λ m. nonempty m.node_id ≡ true) (after_id b) (all_nodes d)
            (All-named d (sort_keys (keys d)) f))
          last in
      rw named (after_next limit b c (all_nodes d) (Sorted-all_nodes d f) h)

  ordered_after-cursor :
      (b : String) (d : Dict String (Node F))
      → nonempty b ≡ true
      → ordered_after (some b) d ≡ keep (after_id b) (all_nodes d)
  unfolding ordered_after
  ordered_after-cursor b d h = rw h refl

  ordered_after-empty :
      (b : String) (d : Dict String (Node F))
      → nonempty b ≡ false
      → ordered_after (some b) d ≡ all_nodes d
  unfolding ordered_after
  ordered_after-empty b d h = rw h refl

  -- On nodes that are filed once, under their own ids, the cursor of a page leads to exactly the
  -- rest of the list: the nodes behind the cursor are those behind the page that it came with.
  pub ordered_after-next_cursor :
      (limit : ℕ) (cursor : Option String) (c : String) (d : Dict String (Node F))
      → IsFiled d
      → next_cursor limit (ordered_after cursor d) ≡ some c
      → ordered_after (some c) d ≡ drop limit (ordered_after cursor d)
  unfolding ordered_after
  ordered_after-next_cursor limit none c d f h = after_all limit c d f h
  ordered_after-next_cursor limit (some b) c d f h = elim (Bool-cases (nonempty b)) [
    | inl full ↦
        let e = ordered_after-cursor b d full in
        subst (λ o. ordered_after (some c) d ≡ drop limit o) (sym e)
          (after_some limit b c d f (subst (λ o. next_cursor limit o ≡ some c) e h))
    | inr empty ↦
        let e = ordered_after-empty b d empty in
        subst (λ o. ordered_after (some c) d ≡ drop limit o) (sym e)
          (after_all limit c d f (subst (λ o. next_cursor limit o ≡ some c) e h))
  ]

  All-lookup_ids :
      (P : String → Type 0) (d : Dict String (Node F)) (ks : List String)
      → IsFiled d
      → ((k : String) (n : Node F) → get d k ≡ some n → P k)
      → All (λ m. P m.node_id) (lookup_all d ks)
  unfolding lookup_all
  All-lookup_ids P d [] f p = tt
  All-lookup_ids P d (k ∷ ks) f p = elim (Option-cases (get d k)) [
    | inl e ↦
        subst (All (λ m. P m.node_id)) (sym (lookup_all-none d k ks e)) (All-lookup_ids P d ks f p)
    | inr (n, e) ↦
        subst (All (λ m. P m.node_id)) (sym (lookup_all-some d k ks n e))
          (subst P (sym (get-IsFiled d k n f e).0) (p k n e), All-lookup_ids P d ks f p)
  ]

  All-ordered_after :
      (P : String → Type 0) (cursor : Option String) (d : Dict String (Node F))
      → All (λ m. P m.node_id) (all_nodes d)
      → All (λ m. P m.node_id) (ordered_after cursor d)
  unfolding ordered_after
  All-ordered_after P none d a = a
  All-ordered_after P (some b) d a = elim (Bool-cases (nonempty b)) [
    | inl full ↦
        subst (All (λ m. P m.node_id)) (sym (ordered_after-cursor b d full))
          (All-keep (λ m. P m.node_id) (after_id b) (all_nodes d) a)
    | inr empty ↦ subst (All (λ m. P m.node_id)) (sym (ordered_after-empty b d empty)) a
  ]

  -- The cursor of a page is the id of a stored node, and not empty.
  pub next_cursor-has :
      (limit : ℕ) (cursor : Option String) (c : String) (d : Dict String (Node F))
      → IsFiled d
      → next_cursor limit (ordered_after cursor d) ≡ some c
      → (has d c ≡ true) × (nonempty c ≡ true)
  next_cursor-has limit cursor c d f h =
      last_id_All (λ i. (has d i ≡ true) × (nonempty i ≡ true)) limit (ordered_after cursor d) c
        (All-ordered_after (λ i. (has d i ≡ true) × (nonempty i ≡ true)) cursor d
          (All-lookup_ids (λ i. (has d i ≡ true) × (nonempty i ≡ true)) d (sort_keys (keys d)) f
            (λ k n e. (ground (arith, e), (get-IsFiled d k n f e).1))))
        (last_of_cursor limit (ordered_after cursor d) c h)
