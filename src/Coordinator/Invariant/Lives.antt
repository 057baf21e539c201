-- ===== src/Coordinator/Invariant/Lives.antt =====
-- What a stored job of MockCoordinator in pygrid/testkit.py keeps for good.
use mathlib.Core.Path.{subst}
use mathlib.Core.Option.{some-injective}
use nycc_grid.Coordinator.Effect.{Effect, idle, pulled, posted, created}
use nycc_grid.Coordinator.Submit.{new_job}
use nycc_grid.Base.{
  Bool-cases, ◌==◌, ℕ, suc, ◌≤◌, String, ◌≡◌, inl, inr, Option, some, arith, eq_iff, string_eq,
  pair_eq, nat_eq,
}
use nycc_grid.Coordinator.State.{Job, Coordinator, World}
use nycc_grid.Coordinator.Life.{Jobs, PullStep, Moves, lease, renew, give_up, here, then}
use nycc_grid.Protocol.{Status, queued, running, done, failed}
use nycc_grid.Json.{Fields}
use nycc_grid.Base.Dict.{get, put, get-put}
use nycc_grid.Coordinator.Result.{finished_job}
use nycc_grid.Coordinator.Effect.{Effect, idle, pulled, posted, created}
use nycc_grid.Runtime.{Platform, Runtime}
use nycc_grid.Coordinator.Invariant.{Inv, IsFresh}
use nycc_grid.Coordinator.Invariant.Reach.{Step, Reach, Step-Effect, Step-Inv, start, after}
use nycc_grid.Coordinator.Submit.{new_job}

-- queued, then running, then done or failed
abbrev pub rank : Status → ℕ
rank queued = 0
rank running = 1
rank done = 2
rank failed = 2

module _ {F : Type 0} where
  -- `k` is `j` later on: the submission is the same, the status has not gone back, no attempt is
  -- uncounted, and a job that was done or failed is the same job still, its result included.
  pub record IsLater (j k : Job F) : Type 0 where
    pub same_id : k.job_id ≡ j.job_id
    pub same_node : k.to_node ≡ j.to_node
    pub same_blob : k.blob_b64 ≡ j.blob_b64
    pub same_reply : k.reply_pubkey ≡ j.reply_pubkey
    pub same_number : k.seq ≡ j.seq
    pub no_return : rank j.status ≤ rank k.status
    pub attempts_grow : j.attempts ≤ k.attempts
    pub done_final : j.status ≡ done → k ≡ j
    pub failed_final : j.status ≡ failed → k ≡ j

  IsLater-refl : (j : Job F) → IsLater j j
  IsLater-refl j = ground arith

  IsLater-trans : (i j k : Job F) → IsLater i j → IsLater j k → IsLater i k
  IsLater-trans i j k a b = ground arith

  PullStep-IsLater : (j k : Job F) → PullStep j k → IsLater j k
  PullStep-IsLater j k (lease _ now_ms q) = ground arith
  PullStep-IsLater j k (renew _ now_ms r l a) = ground arith
  PullStep-IsLater j k (give_up _ now_ms r l a) = ground arith

  finished-IsLater :
      (j : Job F) (blob_b64 : String) (receipt : Option (Fields F))
      → j.status ≡ running
      → IsLater j (finished_job blob_b64 receipt j)
  finished-IsLater j blob_b64 receipt r = ground arith

  -- The job under an id, there before and there later.
  abbrev pub Lives : String → Job F → Jobs F → Type 0
  Lives id j d = (k : Job F) × (get d id ≡ some k) × IsLater j k

  Lives-put :
      (id : String) (i j k : Job F) (e : Jobs F)
      → get e j.job_id ≡ some j
      → IsLater j k
      → Lives id i e
      → Lives id i (put e j.job_id k)
  Lives-put id i j k e g l (m, h, n) = elim (Bool-cases (j.job_id == id)) [
    | inl same ↦
        let at_id : j.job_id ≡ id = (eq_iff j.job_id id).0 same in
        let is_j : m ≡ j = some-injective m j (cc) in
        (
          k,
          ground (arith, get-put e j.job_id id k, same),
          IsLater-trans i j k (subst (IsLater i) is_j n) l,
        )
    | inr other ↦ (m, ground (arith, get-put e j.job_id id k, other, h), n)
  ]

  Lives-Moves :
      (id : String) (i : Job F) {d e : Jobs F}
      → Moves PullStep d e
      → get d id ≡ some i
      → Lives id i e
  Lives-Moves id i here g = (i, g, IsLater-refl i)
  Lives-Moves id i (then {e = e} j k m h r) g =
      Lives-put id i j k e h (PullStep-IsLater j k r) (Lives-Moves id i m g)

  Lives-Effect :
      (id : String) (i : Job F) (w : World F) (s t : Coordinator F)
      → Effect w s t
      → IsFresh w s
      → get s.jobs id ≡ some i
      → Lives id i t.jobs
  Lives-Effect id i w s t (idle a b) fresh g = (i, cc, IsLater-refl i)
  Lives-Effect id i w s t (pulled m b) fresh g = Lives-Moves id i m g
  Lives-Effect id i w s t (posted j blob receipt h r e a b c) fresh g = rw e (
      Lives-put id i j (finished_job blob receipt j) s.jobs h (finished-IsLater j blob receipt r)
        (i, g, IsLater-refl i))
  Lives-Effect id i w s t (created k r n c q e a b d) fresh g = (
    i,
    ground (arith, get-put s.jobs w.uuid id (new_job w r (suc s.seq)), eq_iff w.uuid id),
    IsLater-refl i,
  )

module _ {F : Type 0} ⦃pl : Platform⦄ ⦃rt : Runtime F⦄ where
  Step-Lives :
      (id : String) (i : Job F) (s t : Coordinator F)
      → Step s t
      → Inv s
      → get s.jobs id ≡ some i
      → Lives id i t.jobs
  Step-Lives id i s t st h g =
      let (w, fresh, e) = Step-Effect s t st h in Lives-Effect id i w s t e fresh g

  Reach-Lives-Inv :
      (id : String) (i : Job F) {s t : Coordinator F}
      → Reach s t
      → Inv s
      → get s.jobs id ≡ some i
      → Lives id i t.jobs × Inv t
  Reach-Lives-Inv id i start h g = ((i, g, IsLater-refl i), h)
  Reach-Lives-Inv id i (after {t = t} {u = u} r st) h g =
      let ((j, gj, lj), ht) = Reach-Lives-Inv id i r h g in
      let (k, gk, lk) = Step-Lives id j t u st ht gj in
      ((k, gk, IsLater-trans i j k lj lk), Step-Inv t u st ht)

  -- From a state with the invariant, no run of requests loses a stored job: it is still there
  -- under its id, with the same submission, its status has not gone back, its attempts have not
  -- been taken back, and once done or failed it never changes again.
  pub Reach-IsLater :
      (id : String) (i : Job F) (s t : Coordinator F)
      → Reach s t
      → Inv s
      → get s.jobs id ≡ some i
      → (k : Job F) × (get t.jobs id ≡ some k) × IsLater i k
  Reach-IsLater id i s t r h g = (Reach-Lives-Inv id i r h g).0
