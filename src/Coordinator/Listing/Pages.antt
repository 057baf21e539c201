-- ===== src/Coordinator/Listing/Pages.antt =====
-- The pages of `_list_nodes` in pygrid/testkit.py follow each other without a gap or an overlap.
use mathlib.Core.Path.{subst}
use mathlib.Core.Option.{some-injective}
use nycc_grid.Base.{
  Bool-cases, Option-cases, take, keep, drop, All, ◌==◌, ℕ, zero, suc, String, ◌≡◌, refl, sym, inl,
  inr, Bool, true, false, none, some, List, [], ◌∷◌, arith, eq_iff, string_eq, pair_eq, nat_eq,
}
use nycc_grid.Base.Dict.{Dict, get, keys}
use nycc_grid.Base.TextOrder.{text_ltb, text_ltb_irrefl, text_ltb_trans, text_ltb_total}
use nycc_grid.Coordinator.State.{Node}
use nycc_grid.Coordinator.Filed.{IsFiled, get-IsFiled}
use nycc_grid.Coordinator.Listing.{insert_key, sort_keys, lookup_all, last_id}

-- Ascending, each key once.
abbrev pub SortedKeys : List String → Type 0
SortedKeys [] = Unit
SortedKeys (k ∷ ks) = All (λ j. text_ltb k j ≡ true) ks × SortedKeys ks

abbrev pub DistinctKeys : List String → Type 0
DistinctKeys [] = Unit
DistinctKeys (k ∷ ks) = All (λ j. (j == k) ≡ false) ks × DistinctKeys ks

All-insert_key :
    (P : String → Type 0) (k : String) (ks : List String) → P k → All P ks → All P (insert_key k ks)
unfolding insert_key
All-insert_key P k [] p a = (p, tt)
All-insert_key P k (j ∷ js) p a = elim (Bool-cases (text_ltb j k)) [
  | inl less ↦ rw less (a.0, All-insert_key P k js p a.1)
  | inr more ↦ rw more (p, a)
]

pub All-sort_keys : (P : String → Type 0) (ks : List String) → All P ks → All P (sort_keys ks)
unfolding sort_keys
All-sort_keys P [] a = tt
All-sort_keys P (k ∷ ks) a = All-insert_key P k (sort_keys ks) a.0 (All-sort_keys P ks a.1)

All-below :
    (k j : String) (ks : List String)
    → text_ltb k j ≡ true
    → All (λ i. text_ltb j i ≡ true) ks
    → All (λ i. text_ltb k i ≡ true) ks
All-below k j [] h a = tt
All-below k j (i ∷ ks) h a = (text_ltb_trans k j i h a.0, All-below k j ks h a.1)

text_ltb_flip : (j k : String) → text_ltb j k ≡ false → (j == k) ≡ false → text_ltb k j ≡ true
text_ltb_flip j k h other = elim (Bool-cases (text_ltb k j)) [
  | inl less ↦ less
  | inr more ↦ absurd (ground (arith, text_ltb_total j k h more, eq_iff j k, other))
]

SortedKeys-insert_key :
    (k : String) (ks : List String)
    → All (λ j. (j == k) ≡ false) ks
    → SortedKeys ks
    → SortedKeys (insert_key k ks)
unfolding insert_key
SortedKeys-insert_key k [] d s = (tt, tt)
SortedKeys-insert_key k (j ∷ js) d s = elim (Bool-cases (text_ltb j k)) [
  | inl less ↦
      rw less (
        All-insert_key (λ i. text_ltb j i ≡ true) k js less s.0,
        SortedKeys-insert_key k js d.1 s.1,
      )
  | inr more ↦
      let below = text_ltb_flip j k more d.0 in rw more ((below, All-below k j js below s.0), s)
]

pub SortedKeys-sort_keys : (ks : List String) → DistinctKeys ks → SortedKeys (sort_keys ks)
unfolding sort_keys
SortedKeys-sort_keys [] d = tt
SortedKeys-sort_keys (k ∷ ks) d =
    SortedKeys-insert_key k (sort_keys ks) (All-sort_keys (λ j. (j == k) ≡ false) ks d.0)
      (SortedKeys-sort_keys ks d.1)

module _ {F : Type 0} where
  abbrev pub Sorted : List (Node F) → Type 0
  Sorted [] = Unit
  Sorted (n ∷ ns) = All (λ m. text_ltb n.node_id m.node_id ≡ true) ns × Sorted ns

  Absent-keys :
      (d : Dict String (Node F)) (k : String)
      → get d k ≡ none
      → All (λ j. (j == k) ≡ false) (keys d)
  unfolding get
  Absent-keys [] k h = tt
  Absent-keys ((j, n) ∷ d) k h = elim (Bool-cases (j == k)) [
    | inl same ↦ absurd (ground (arith, same, h))
    | inr other ↦ (other, Absent-keys d k (ground (arith, other, h)))
  ]

  pub DistinctKeys-keys : (d : Dict String (Node F)) → IsFiled d → DistinctKeys (keys d)
  DistinctKeys-keys [] f = tt
  DistinctKeys-keys ((k, n) ∷ d) (a, b, c, f) = (Absent-keys d k c, DistinctKeys-keys d f)

  pub lookup_all-none :
      (d : Dict String (Node F)) (k : String) (ks : List String)
      → get d k ≡ none
      → lookup_all d (k ∷ ks) ≡ lookup_all d ks
  unfolding lookup_all
  lookup_all-none d k ks h = ground (arith, h)

  pub lookup_all-some :
      (d : Dict String (Node F)) (k : String) (ks : List String) (n : Node F)
      → get d k ≡ some n
      → lookup_all d (k ∷ ks) ≡ n ∷ lookup_all d ks
  unfolding lookup_all
  lookup_all-some d k ks n h = ground (arith, h)

  All-lookup_all :
      (d : Dict String (Node F)) (k : String) (ks : List String)
      → IsFiled d
      → All (λ j. text_ltb k j ≡ true) ks
      → All (λ m. text_ltb k m.node_id ≡ true) (lookup_all d ks)
  unfolding lookup_all
  All-lookup_all d k [] f a = tt
  All-lookup_all d k (j ∷ ks) f a = elim (Option-cases (get d j)) [
    | inl e ↦
        subst (All (λ m. text_ltb k m.node_id ≡ true)) (sym (lookup_all-none d j ks e))
          (All-lookup_all d k ks f a.1)
    | inr (n, e) ↦
        subst (All (λ m. text_ltb k m.node_id ≡ true)) (sym (lookup_all-some d j ks n e))
          (rw (get-IsFiled d j n f e).0 (a.0), All-lookup_all d k ks f a.1)
  ]

  pub Sorted-lookup_all :
      (d : Dict String (Node F)) (ks : List String)
      → IsFiled d
      → SortedKeys ks
      → Sorted (lookup_all d ks)
  unfolding lookup_all
  Sorted-lookup_all d [] f s = tt
  Sorted-lookup_all d (k ∷ ks) f s = elim (Option-cases (get d k)) [
    | inl e ↦ subst Sorted (sym (lookup_all-none d k ks e)) (Sorted-lookup_all d ks f s.1)
    | inr (n, e) ↦
        subst Sorted (sym (lookup_all-some d k ks n e))
          (rw (get-IsFiled d k n f e).0 (All-lookup_all d k ks f s.0), Sorted-lookup_all d ks f s.1)
  ]

  abbrev pub after_id : String → Node F → Bool
  after_id c n = text_ltb c n.node_id

  keep-All :
      (c : String) (ns : List (Node F))
      → All (λ m. text_ltb c m.node_id ≡ true) ns
      → keep (after_id c) ns ≡ ns
  keep-All c [] a = refl
  keep-All c (n ∷ ns) a = ground (arith, keep-All c ns a.1, a.0)

  pub last_id_All :
      (P : String → Type 0) (limit : ℕ) (ns : List (Node F)) (c : String)
      → All (λ m. P m.node_id) ns
      → last_id (take limit ns) ≡ some c
      → P c
  last_id_All P zero ns c a h = absurd (ground (arith, h))
  last_id_All P (suc l) [] c a h = absurd (ground (arith, h))
  last_id_All P (suc zero) (n ∷ ns) c a h = subst P (some-injective n.node_id c h) (a.0)
  last_id_All P (suc (suc l)) (n ∷ []) c a h = subst P (some-injective n.node_id c h) (a.0)
  last_id_All P (suc (suc l)) (n ∷ m ∷ ns) c a h = last_id_All P (suc l) (m ∷ ns) c a.1 h

  -- Behind the last id of a page of an ascending list is the rest of the list.
  pub keep_rest :
      (limit : ℕ) (ns : List (Node F)) (c : String)
      → Sorted ns
      → last_id (take limit ns) ≡ some c
      → keep (after_id c) ns ≡ drop limit ns
  keep_rest zero ns c s h = absurd (ground (arith, h))
  keep_rest (suc l) [] c s h = absurd (ground (arith, h))
  keep_rest (suc zero) (n ∷ ns) c s h =
      let is_n = some-injective n.node_id c h in
      subst (λ i. keep (after_id i) (n ∷ ns) ≡ ns) is_n
        (ground (arith, text_ltb_irrefl n.node_id, keep-All n.node_id ns s.0))
  keep_rest (suc (suc l)) (n ∷ []) c s h =
      let is_n = some-injective n.node_id c h in
      subst (λ i. keep (after_id i) (n ∷ []) ≡ []) is_n (ground (arith, text_ltb_irrefl n.node_id))
  keep_rest (suc (suc l)) (n ∷ m ∷ ns) c s h =
      let below : text_ltb n.node_id c ≡ true =
        last_id_All (λ i. text_ltb n.node_id i ≡ true) (suc l) (m ∷ ns) c s.0 h in
      let back : text_ltb c n.node_id ≡ false = elim (Bool-cases (text_ltb c n.node_id)) [
        | inl up ↦ absurd (ground (arith, text_ltb_trans c n.node_id c up below, text_ltb_irrefl c))
        | inr down ↦ down
      ] in
      ground (arith, back, keep_rest (suc l) (m ∷ ns) c s.1 h)
