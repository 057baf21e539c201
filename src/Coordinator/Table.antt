-- ===== src/Coordinator/Table.antt =====
-- The table of jobs of MockCoordinator under the steps of a job: what `put` and `Moves` keep.
use mathlib.Core.Path.{subst}
use nycc_grid.Base.{
  Bool-cases, count_if, All, ◌==◌, ℕ, ◌+◌, ◌≤◌, String, ◌≡◌, refl, inl, inr, Bool, true, false,
  none, some, [], ◌∷◌, arith, eq_iff, nat_eq, string_eq, pair_eq,
}
use nycc_grid.Base.Dict.{get, put, get-put, values}
use nycc_grid.Coordinator.State.{Job}
use nycc_grid.Coordinator.Life.{Jobs, Moves, IsKeyed, here, then}

-- 1 for true.
abbrev pub tick : Bool → ℕ
tick true = 1
tick false = 0

module _ {F : Type 0} where
  pub IsKeyed-put :
      (d : Jobs F) (k : String) (v : Job F) → IsKeyed d → v.job_id ≡ k → IsKeyed (put d k v)
  unfolding get put
  IsKeyed-put [] k v h e = (e, refl, tt)
  IsKeyed-put ((i, u) ∷ d) k v h e = elim (Bool-cases (i == k)) [
    | inl same ↦ rw same (e, cc ((eq_iff i k).0 same), h.2)
    | inr other ↦
        rw other
          (h.0, ground (arith, get-put d k i v, eq_iff k i, eq_iff i k), IsKeyed-put d k v h.2 e)
  ]

  pub All-put :
      (P : Job F → Type 0) (d : Jobs F) (k : String) (v : Job F)
      → All P (values d)
      → P v
      → All P (values (put d k v))
  unfolding put
  All-put P [] k v a p = (p, tt)
  All-put P ((i, u) ∷ d) k v a p = elim (Bool-cases (i == k)) [
    | inl same ↦ rw same (p, a.1)
    | inr other ↦ rw other (a.0, All-put P d k v a.1 p)
  ]

  pub All-get :
      (P : Job F → Type 0) (d : Jobs F) (k : String) (v : Job F)
      → All P (values d)
      → get d k ≡ some v
      → P v
  unfolding get
  All-get P [] k v a g = cc
  All-get P ((i, u) ∷ d) k v a g = elim (Bool-cases (i == k)) [
    | inl same ↦ let e : u ≡ v = ground (arith, same) in subst P e a.0
    | inr other ↦ All-get P d k v a.1 (ground (arith, other))
  ]

  -- A job that replaces another is counted in its place.
  pub count-put :
      (p : Job F → Bool) (d : Jobs F) (k : String) (u v : Job F)
      → get d k ≡ some u
      → count_if p (values (put d k v)) + tick (p u) ≡ count_if p (values d) + tick (p v)
  unfolding get put
  count-put p [] k u v g = cc
  count-put p ((i, x) ∷ d) k u v g = ground (arith, count-put p d k u v)

  pub count-put_fresh :
      (p : Job F → Bool) (d : Jobs F) (k : String) (v : Job F)
      → get d k ≡ none
      → count_if p (values (put d k v)) ≡ count_if p (values d) + tick (p v)
  unfolding get put
  count-put_fresh p [] k v g = ground arith
  count-put_fresh p ((i, x) ∷ d) k v g = ground (arith, count-put_fresh p d k v)

  -- What the steps of `R` keep of one job, and of the table.
  module _ {R : Job F → Job F → Type 0} where
    pub Moves-IsKeyed :
        ((j k : Job F) → R j k → k.job_id ≡ j.job_id)
        → {d e : Jobs F} → Moves R d e
        → IsKeyed d
        → IsKeyed e
    Moves-IsKeyed same here h = h
    Moves-IsKeyed same (then {e = e} j k m g r) h =
        IsKeyed-put e j.job_id k (Moves-IsKeyed same m h) (same j k r)

    pub Moves-All :
        (P : Job F → Type 0)
        → ((j k : Job F) → R j k → P j → P k)
        → {d e : Jobs F} → Moves R d e
        → All P (values d)
        → All P (values e)
    Moves-All P keeps here a = a
    Moves-All P keeps (then {e = e} j k m g r) a =
        let b = Moves-All P keeps m a in
        All-put P e j.job_id k b (keeps j k r (All-get P e j.job_id j b g))

    pub Moves-count-le :
        (p : Job F → Bool)
        → ((j k : Job F) → R j k → tick (p k) ≤ tick (p j))
        → {d e : Jobs F} → Moves R d e
        → count_if p (values e) ≤ count_if p (values d)
    Moves-count-le p falls here = omega arith
    Moves-count-le p falls (then {e = e} j k m g r) =
        omega (arith, count-put p e j.job_id j k g, falls j k r, Moves-count-le p falls m)

    pub Moves-count :
        (p : Job F → Bool)
        → ((j k : Job F) → R j k → tick (p k) ≡ tick (p j))
        → {d e : Jobs F} → Moves R d e
        → count_if p (values e) ≡ count_if p (values d)
    Moves-count p same here = refl
    Moves-count p same (then {e = e} j k m g r) =
        omega (arith, count-put p e j.job_id j k g, same j k r, Moves-count p same m)
