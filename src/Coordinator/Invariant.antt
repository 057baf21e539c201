-- ===== src/Coordinator/Invariant.antt =====
-- What holds of MockCoordinator of pygrid/testkit.py between two requests.
pub mod Jobs
pub mod Counts
pub mod Reach
pub mod Lives
use nycc_grid.Base.{
  is_some, count_if, All, ◌≤◌, ◌<◌, String, ◌≡◌, ◌≢◌, true, none, nat_eq, string_eq, pair_eq,
}
use nycc_grid.Coordinator.State.{
  max_attempts, max_queued_per_node, Job, Coordinator, World, is_done, queued_count,
}
use nycc_grid.Coordinator.Life.{IsKeyed}
use nycc_grid.Base.Dict.{get, values}
use nycc_grid.Protocol.{queued, done}

module _ {F : Type 0} where
  -- A stored job: its attempts are bounded, a job that waits has no lease behind it and one that
  -- does not has been pulled, and it holds a result exactly when it is done.
  pub record IsSound (j : Job F) : Type 0 where
    pub attempts_capped : j.attempts ≤ max_attempts
    pub waiting_new : j.status ≡ queued → (j.attempts ≡ 0) × (j.lease_until_ms ≡ 0)
    pub pulled_once : j.status ≢ queued → 0 < j.attempts
    pub done_result : is_some j.result_b64 ≡ is_done j.status
    pub receipt_done : is_some j.receipt ≡ true → j.status ≡ done

  pub record Inv (s : Coordinator F) : Type 0 where
    pub keyed : IsKeyed s.jobs
    pub sound : All IsSound (values s.jobs)
    pub done_counted : s.jobs_done ≡ count_if (λ j. is_done j.status) (values s.jobs)
    pub queue_capped : (n : String) → queued_count s n ≤ max_queued_per_node
    pub numbered : All (λ j. j.seq ≤ s.seq) (values s.jobs)

  -- The new uuid of a request is the id of no stored job.
  abbrev pub IsFresh : World F → Coordinator F → Type 0
  IsFresh w s = get s.jobs w.uuid ≡ none
