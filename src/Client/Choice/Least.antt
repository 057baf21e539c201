-- ===== src/Client/Choice/Least.antt =====
-- Which node `pick_node` of pygrid/client.py picks.
use mathlib.Core.Path.{subst}
use mathlib.Core.List.{Memᴰ}
use mathlib.Core.List.Memᴰ
use mathlib.Core.Option.{some-injective}
use nycc_grid.Base.{
  if◌then◌else◌, Bool-cases, Option-cases, keep, All, String, ◌≡◌, refl, sym, ap, ◌∙◌, ◌⊎◌, inl,
  inr, Bool, true, false, some, List, [], ◌∷◌, arith,
}
use nycc_grid.Json.{Fields}
use nycc_grid.Runtime.{Runtime}
use nycc_grid.Client.Choice.{node_key, key_ltb, keyed, least_from, is_alive, pick_node}

-- A strict order of the keys, as Python's tuples of a number and a text have it where no number is
-- a nan.
pub record IsKeyOrder (F : Type 0) ⦃rt : Runtime F⦄ : Type 0 where
  pub irreflexive : (k : F × String) → key_ltb k k ≡ false
  pub transitive :
      (j k l : F × String) → key_ltb j k ≡ true → key_ltb k l ≡ true → key_ltb j l ≡ true

skip_second :
    {A : Type 0} {x : A} {es : List A} (best e : A) → Memᴰ x (best ∷ es) → Memᴰ x (best ∷ e ∷ es)
skip_second best e (Memᴰ.head p) = Memᴰ.head p
skip_second best e (Memᴰ.tail m) = Memᴰ.tail (Memᴰ.tail m)

module _ {F : Type 0} ⦃rt : Runtime F⦄ where
  -- No entry of the list has a smaller key than the best.
  abbrev pub NoneBelow : F × String → List ((F × String) × Fields F) → Type 0
  NoneBelow k = All (λ e. key_ltb e.0 k ≡ false)

  -- The entry found is the one at the start, or has a smaller key.
  least_from_le :
      (best : (F × String) × Fields F) (es : List ((F × String) × Fields F))
      → IsKeyOrder F
      → ((least_from best es).0 ≡ best.0) ⊎ (key_ltb (least_from best es).0 best.0 ≡ true)
  unfolding least_from
  least_from_le best [] o = inl refl
  least_from_le best (e ∷ es) o = elim (Bool-cases (key_ltb e.0 best.0)) [
    | inl h ↦
        let r = (least_from e es).0 in
        ground (arith, h, least_from_le e es o, o.transitive r e.0 best.0)
    | inr h ↦ ground (arith, h, least_from_le best es o)
  ]

  least_from-smaller :
      (best e : (F × String) × Fields F) (es : List ((F × String) × Fields F))
      → key_ltb e.0 best.0 ≡ true
      → least_from best (e ∷ es) ≡ least_from e es
  unfolding least_from
  least_from-smaller best e es h = ground (arith, h)

  least_from-same :
      (best e : (F × String) × Fields F) (es : List ((F × String) × Fields F))
      → key_ltb e.0 best.0 ≡ false
      → least_from best (e ∷ es) ≡ least_from best es
  unfolding least_from
  least_from-same best e es h = ground (arith, h)

  least_from-NoneBelow :
      (best : (F × String) × Fields F) (es : List ((F × String) × Fields F))
      → IsKeyOrder F
      → NoneBelow (least_from best es).0 (best ∷ es)
  unfolding least_from
  least_from-NoneBelow best [] o = (o.irreflexive best.0, tt)
  least_from-NoneBelow best (e ∷ es) o = elim (Bool-cases (key_ltb e.0 best.0)) [
    | inl h ↦
        let (first, rest) = least_from-NoneBelow e es o in
        let r = (least_from e es).0 in
        subst (λ x. NoneBelow x.0 (best ∷ e ∷ es)) (sym (least_from-smaller best e es h))
          (ground (arith, h, first, o.transitive e.0 best.0 r), (first, rest))
    | inr h ↦
        let (first, rest) = least_from-NoneBelow best es o in
        let r = (least_from best es).0 in
        subst (λ x. NoneBelow x.0 (best ∷ e ∷ es)) (sym (least_from-same best e es h))
          (
            first,
            (ground (arith, h, first, least_from_le best es o, o.transitive e.0 r best.0), rest),
          )
  ]

  least_from-Mem :
      (best : (F × String) × Fields F) (es : List ((F × String) × Fields F))
      → Memᴰ (least_from best es) (best ∷ es)
  unfolding least_from
  least_from-Mem best [] = Memᴰ.head refl
  least_from-Mem best (e ∷ es) = elim (Bool-cases (key_ltb e.0 best.0)) [
    | inl h ↦ rw (least_from-smaller best e es h) (Memᴰ.tail (least_from-Mem e es))
    | inr h ↦ rw (least_from-same best e es h) (skip_second best e (least_from-Mem best es))
  ]

  -- What is said of the picked node's key of every node that is alive.
  abbrev pub IsNotBelow : F × String → Fields F → Type 0
  IsNotBelow k m = (j : F × String) × (node_key m ≡ some j) × (key_ltb j k ≡ false)

  keyed_parts :
      (n : Fields F) (ns : List (Fields F)) (es : List ((F × String) × Fields F))
      → keyed (n ∷ ns) ≡ some es
      → (j : F × String) × (rest : List ((F × String) × Fields F)) × (node_key n ≡ some j)
        × (keyed ns ≡ some rest)
        × (es ≡ (j, n) ∷ rest)
  unfolding keyed
  keyed_parts n ns es e = elim (Option-cases (node_key n)) [
    | inl h ↦ absurd (ground (arith, h, e))
    | inr (j, h) ↦ elim (Option-cases (keyed ns)) [
      | inl g ↦ absurd (ground (arith, h, g, e))
      | inr (rest, g) ↦ (j, rest, h, g, ground (arith, h, g, e))
    ]
  ]

  keyed-All :
      (k : F × String) (ns : List (Fields F)) (es : List ((F × String) × Fields F))
      → keyed ns ≡ some es
      → NoneBelow k es
      → All (IsNotBelow k) ns
  unfolding keyed
  keyed-All k [] es e all = tt
  keyed-All k (n ∷ ns) es e all =
      let (j, rest, hj, hr, whole) = keyed_parts n ns es e in
      let (first, others) = subst (NoneBelow k) whole all in
      ((j, hj, first), keyed-All k ns rest hr others)

  keyed-Mem :
      (e : (F × String) × Fields F) (ns : List (Fields F)) (es : List ((F × String) × Fields F))
      → keyed ns ≡ some es
      → Memᴰ e es
      → Memᴰ e.1 ns × (node_key e.1 ≡ some e.0)
  unfolding keyed
  keyed-Mem e [] es h m = absurd (Memᴰ.not-nil (subst (Memᴰ e) (sym (some-injective _ _ h)) m))
  keyed-Mem e (n ∷ ns) es h m =
      let (j, rest, hj, hr, whole) = keyed_parts n ns es h in
      elim (Memᴰ.cases_cons (subst (Memᴰ e) whole m)) [
        | inl p ↦ (
          Memᴰ.head (ap (λ x. x.1) p),
          ap (λ x. node_key x.1) p ∙ hj ∙ sym (ap (λ x. some x.0) p),
        )
        | inr later ↦ let (found, key) = keyed-Mem e ns rest hr later in (Memᴰ.tail found, key)
      ]

  All-keep :
      (P : Fields F → Type 0) (p : Fields F → Bool) (ns : List (Fields F))
      → All P (keep p ns)
      → All (λ n. p n ≡ true → P n) ns
  All-keep P p [] all = tt
  All-keep P p (n ∷ ns) all = elim (Bool-cases (p n)) [
    | inl h ↦
        let (first, rest) = subst (λ b. All P (if b then n ∷ keep p ns else keep p ns)) h all in
        (λ _. first, All-keep P p ns rest)
    | inr h ↦
        let rest = subst (λ b. All P (if b then n ∷ keep p ns else keep p ns)) h all in
        (λ g. absurd (ground (arith, g, h)), All-keep P p ns rest)
  ]

  Mem-keep :
      (p : Fields F → Bool) (n : Fields F) (ns : List (Fields F))
      → Memᴰ n (keep p ns)
      → Memᴰ n ns × (p n ≡ true)
  Mem-keep p n [] m = absurd (Memᴰ.not-nil m)
  Mem-keep p n (x ∷ ns) m = elim (Bool-cases (p x)) [
    | inl h ↦
        elim (Memᴰ.cases_cons (subst (λ b. Memᴰ n (if b then x ∷ keep p ns else keep p ns)) h m)) [
          | inl e ↦ (Memᴰ.head e, ap p e ∙ h)
          | inr later ↦ let (found, holds) = Mem-keep p n ns later in (Memᴰ.tail found, holds)
        ]
    | inr h ↦
        let later = subst (λ b. Memᴰ n (if b then x ∷ keep p ns else keep p ns)) h m in
        let (found, holds) = Mem-keep p n ns later in (Memᴰ.tail found, holds)
  ]

  -- The picked node is listed, is alive, and no listed node that is alive has a smaller key.
  pub record Picked (n : Fields F) (listed : List (Fields F)) : Type 0 where
    pub found : Memᴰ n listed
    pub alive : is_alive n ≡ true
    pub key : F × String
    pub has_key : node_key n ≡ some key
    pub least_key : All (λ m. is_alive m ≡ true → IsNotBelow key m) listed

  pick_node-entries :
      (n : Fields F) (listed : List (Fields F))
      → pick_node listed ≡ some n
      → (e : (F × String) × Fields F) × (es : List ((F × String) × Fields F)) × (keyed
            (keep is_alive listed)
          ≡ some (e ∷ es))
        × ((least_from e es).1 ≡ n)
  unfolding pick_node
  pick_node-entries n listed h = elim (Option-cases (keyed (keep is_alive listed))) [
    | inl g ↦ absurd (ground (arith, g, h))
    | inr ([], g) ↦ absurd (ground (arith, g, h))
    | inr (e ∷ es, g) ↦ (e, es, g, ground (arith, g, h))
  ]

  -- The node that pick_node returns is listed and alive, and no node that is listed and alive
  -- claims fewer watts, or as many under an id that comes before, if the keys are in strict order.
  pub pick_node-Picked :
      (n : Fields F) (listed : List (Fields F))
      → IsKeyOrder F
      → pick_node listed ≡ some n
      → Picked n listed
  pick_node-Picked n listed o h =
      let (e, es, entries, picked) = pick_node-entries n listed h in
      let best = least_from e es in
      let (member, key) =
        keyed-Mem best (keep is_alive listed) (e ∷ es) entries (least_from-Mem e es) in
      let (found, alive) = Mem-keep is_alive best.1 listed member in
      let all =
        All-keep (IsNotBelow best.0) is_alive listed (
          keyed-All best.0 (keep is_alive listed) (e ∷ es) entries (least_from-NoneBelow e es o)) in
      subst (λ x. Picked x listed) picked
        (record { found = found; alive = alive; key = best.0; has_key = key; least_key = all })
