-- ===== src/Coordinator/Filed.antt =====
-- The table of nodes of MockCoordinator in pygrid/testkit.py: each node under its own id.
use nycc_grid.Base.{
  Bool-cases, ◌==◌, String, ◌≡◌, refl, inl, inr, true, none, some, [], ◌∷◌, arith, eq_iff,
  string_eq, pair_eq, nat_eq,
}
use nycc_grid.Base.Dict.{Dict, get, put, get-put}
use nycc_grid.Json.{nonempty}
use nycc_grid.Coordinator.State.{Node}

module _ {F : Type 0} where
  -- Every node is filed once, under its id, which is not empty.
  abbrev pub IsFiled : Dict String (Node F) → Type 0
  IsFiled [] = Unit
  IsFiled ((k, n) ∷ d) = (n.node_id ≡ k) × (nonempty k ≡ true) × (get d k ≡ none) × IsFiled d

  pub get-IsFiled :
      (d : Dict String (Node F)) (k : String) (n : Node F)
      → IsFiled d
      → get d k ≡ some n
      → (n.node_id ≡ k) × (nonempty k ≡ true)
  unfolding get
  get-IsFiled [] k n f h = absurd (ground (arith, h))
  get-IsFiled ((j, m) ∷ d) k n (a, b, c, f) h = elim (Bool-cases (j == k)) [
    | inl same ↦ ground (arith, same, h, a, b, eq_iff j k)
    | inr other ↦ get-IsFiled d k n f (ground (arith, other, h))
  ]

  pub IsFiled-put :
      (d : Dict String (Node F)) (k : String) (v : Node F)
      → v.node_id ≡ k
      → nonempty k ≡ true
      → IsFiled d
      → IsFiled (put d k v)
  unfolding get put
  IsFiled-put [] k v a b f = (a, b, refl, tt)
  IsFiled-put ((j, n) ∷ d) k v a b (c, e, g, f) = elim (Bool-cases (j == k)) [
    | inl same ↦ rw same (a, b, ground (arith, eq_iff j k, same, g), f)
    | inr other ↦ rw other (
      c,
      e,
      ground (arith, get-put d k j v, eq_iff j k, eq_iff k j, other, g),
      IsFiled-put d k v a b f,
    )
  ]
