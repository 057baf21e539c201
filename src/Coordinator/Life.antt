-- ===== src/Coordinator/Life.antt =====
-- The life of a job in MockCoordinator of pygrid/testkit.py, as a step relation: what `_pull` and
-- `_result` may do to a stored job, and what they do to the table of jobs.
use nycc_grid.Base.{
  ℕ, ◌≤◌, ◌<◌, String, ◌≡◌, Option, none, some, [], ◌∷◌, nat_eq, string_eq, pair_eq,
}
use nycc_grid.Base.Dict.{Dict, get, put}
use nycc_grid.Json.{Fields}
use nycc_grid.Protocol.{queued, running}
use nycc_grid.Coordinator.State.{max_attempts, Job}
use nycc_grid.Coordinator.Pull.{failed_job, delivered_job}
use nycc_grid.Coordinator.Result.{finished_job}

abbrev pub Jobs : Type 0 → Type 0
Jobs F = Dict String (Job F)

module _ {F : Type 0} where
  -- A pull leases a queued job, leases a job again whose lease ran out, or gives it up.
  pub data PullStep : Job F → Job F → Type 0 where
    lease : (j : Job F) (now_ms : ℕ) → j.status ≡ queued → PullStep j (delivered_job now_ms j)
    renew :
        (j : Job F) (now_ms : ℕ)
        → j.status ≡ running
        → j.lease_until_ms ≤ now_ms
        → j.attempts < max_attempts
        → PullStep j (delivered_job now_ms j)
    give_up :
        (j : Job F) (now_ms : ℕ)
        → j.status ≡ running
        → j.lease_until_ms ≤ now_ms
        → max_attempts ≤ j.attempts
        → PullStep j (failed_job j)

  -- A posted result ends a running job.
  pub data ResultStep : Job F → Job F → Type 0 where
    finish :
        (j : Job F) (blob_b64 : String) (receipt : Option (Fields F))
        → j.status ≡ running
        → ResultStep j (finished_job blob_b64 receipt j)

  -- The table after some steps of `R`, each at a stored job under its own id.
  pub data Moves (R : Job F → Job F → Type 0) (d : Jobs F) : Jobs F → Type 0 where
    here : Moves R d d
    then :
        {e : Jobs F} (j k : Job F)
        → Moves R d e
        → get e j.job_id ≡ some j
        → R j k
        → Moves R d (put e j.job_id k)

  -- Every job is stored once, under its id.
  abbrev pub IsKeyed : Jobs F → Type 0
  IsKeyed [] = Unit
  IsKeyed ((k, j) ∷ d) = (j.job_id ≡ k) × (get d k ≡ none) × IsKeyed d
