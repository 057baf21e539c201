-- ===== src/Coordinator/Invariant/Counts.antt =====
-- The counters against the table: jobs done, and the jobs that wait or run at a node.
use nycc_grid.Base.{count_if, suc, ◌+◌, ◌≤◌, ◌<◌, String, ◌≡◌, ap, Option, arith, eq_iff}
use nycc_grid.Coordinator.State.{
  max_queued_per_node, Job, Coordinator, World, is_done, is_backlog, queued_count,
}
use nycc_grid.Coordinator.Life.{PullStep, lease, renew, give_up}
use nycc_grid.Coordinator.Invariant.{IsFresh}
use nycc_grid.Json.{Fields}
use nycc_grid.Coordinator.Table.{tick, count-put, count-put_fresh, Moves-count-le, Moves-count}
use nycc_grid.Protocol.{running}
use nycc_grid.Coordinator.Result.{finished_job}
use nycc_grid.Coordinator.Effect.{Effect, idle, pulled, posted, created}
use nycc_grid.Coordinator.Submit.{new_job}
use nycc_grid.Base.Dict.{values}

module _ {F : Type 0} where
  PullStep-done : (j k : Job F) → PullStep j k → tick (is_done k.status) ≡ tick (is_done j.status)
  PullStep-done j k (lease _ now_ms q) = ground arith
  PullStep-done j k (renew _ now_ms r l a) = ground arith
  PullStep-done j k (give_up _ now_ms r l a) = ground arith

  PullStep-backlog :
      (n : String) (j k : Job F) → PullStep j k → tick (is_backlog n k) ≤ tick (is_backlog n j)
  PullStep-backlog n j k (lease _ now_ms q) = ground arith
  PullStep-backlog n j k (renew _ now_ms r l a) = ground arith
  PullStep-backlog n j k (give_up _ now_ms r l a) = ground arith

  -- The jobs counted as done are those that are.
  pub done-Effect :
      (w : World F) (s t : Coordinator F)
      → Effect w s t
      → IsFresh w s
      → s.jobs_done ≡ count_if (λ j. is_done j.status) (values s.jobs)
      → t.jobs_done ≡ count_if (λ j. is_done j.status) (values t.jobs)
  done-Effect w s t (idle a b) fresh h = rw (a, b.same_done) h
  done-Effect w s t (pulled m b) fresh h =
      omega (arith, b.same_done, Moves-count (λ j. is_done j.status) PullStep-done m)
  done-Effect w s t (posted j blob receipt g r e a b c) fresh h = rw e (
      omega (
        arith,
        a,
        h,
        count-put (λ j. is_done j.status) s.jobs j.job_id j (finished_job blob receipt j) g,
        ap (λ x. tick (is_done x)) r,
      ))
  done-Effect w s t (created k r n c i e a b d) fresh h = rw e (
      omega (
        arith,
        a,
        h,
        count-put_fresh (λ j. is_done j.status) s.jobs w.uuid (new_job w r (suc s.seq)) fresh,
      ))

  created-backlog :
      (n : String) (w : World F) (s : Coordinator F) (r : String × String × String)
      → queued_count s r.0 < max_queued_per_node
      → queued_count s n ≤ max_queued_per_node
      → queued_count s n + tick (is_backlog n (new_job w r (suc s.seq))) ≤ max_queued_per_node
  created-backlog n w s r room h = ground (arith, eq_iff r.0 n)

  finished-backlog :
      (n : String) (j : Job F) (blob : String) (receipt : Option (Fields F))
      → j.status ≡ running
      → tick (is_backlog n (finished_job blob receipt j)) ≤ tick (is_backlog n j)
  finished-backlog n j blob receipt r = ground arith

  -- No node has more than its share of jobs that wait or run.
  pub queue-Effect :
      (n : String) (w : World F) (s t : Coordinator F)
      → Effect w s t
      → IsFresh w s
      → queued_count s n ≤ max_queued_per_node
      → queued_count t n ≤ max_queued_per_node
  unfolding queued_count
  queue-Effect n w s t (idle a b) fresh h = rw a h
  queue-Effect n w s t (pulled m b) fresh h =
      omega (arith, Moves-count-le (is_backlog n) (PullStep-backlog n) m)
  queue-Effect n w s t (posted j blob receipt g r e a b c) fresh h = rw e (
      omega (
        arith,
        finished-backlog n j blob receipt r,
        count-put (is_backlog n) s.jobs j.job_id j (finished_job blob receipt j) g,
      ))
  queue-Effect n w s t (created k r nd c i e a b d) fresh h = rw e (
      omega (
        arith,
        created-backlog n w s r c h,
        count-put_fresh (is_backlog n) s.jobs w.uuid (new_job w r (suc s.seq)) fresh,
      ))
