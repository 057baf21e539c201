-- ===== src/Coordinator/Invariant/Jobs.antt =====
-- The steps of a job keep it sound, and each effect of a request keeps the invariant.
use nycc_grid.Base.{
  All, ℕ, suc, ◌≤◌, String, ◌≡◌, refl, Option, List, [], ◌∷◌, arith, nat_eq, string_eq, pair_eq,
}
use nycc_grid.Coordinator.State.{Job, Coordinator, World}
use nycc_grid.Coordinator.Life.{PullStep, IsKeyed, lease, renew, give_up}
use nycc_grid.Coordinator.Invariant.{IsSound}
use nycc_grid.Json.{Fields}
use nycc_grid.Coordinator.Table.{IsKeyed-put, All-put, All-get, Moves-IsKeyed, Moves-All}
use nycc_grid.Protocol.{running}
use nycc_grid.Coordinator.Result.{finished_job}
use nycc_grid.Coordinator.Effect.{Effect, idle, pulled, posted, created}
use nycc_grid.Coordinator.Submit.{new_job}
use nycc_grid.Base.Dict.{put, values}

module _ {F : Type 0} where
  PullStep-IsSound : (j k : Job F) → PullStep j k → IsSound j → IsSound k
  PullStep-IsSound j k (lease _ now_ms q) h = ground arith
  PullStep-IsSound j k (renew _ now_ms r l a) h = ground arith
  PullStep-IsSound j k (give_up _ now_ms r l a) h = ground arith

  finished-IsSound :
      (j : Job F) (blob_b64 : String) (receipt : Option (Fields F))
      → j.status ≡ running
      → IsSound j
      → IsSound (finished_job blob_b64 receipt j)
  finished-IsSound j blob_b64 receipt r h = ground arith

  PullStep-job_id : (j k : Job F) → PullStep j k → k.job_id ≡ j.job_id
  PullStep-job_id j k (lease _ now_ms q) = refl
  PullStep-job_id j k (renew _ now_ms r l a) = refl
  PullStep-job_id j k (give_up _ now_ms r l a) = refl

  PullStep-seq : (b : ℕ) (j k : Job F) → PullStep j k → j.seq ≤ b → k.seq ≤ b
  PullStep-seq b j k (lease _ now_ms q) h = h
  PullStep-seq b j k (renew _ now_ms r l a) h = h
  PullStep-seq b j k (give_up _ now_ms r l a) h = h

  pub IsKeyed-Effect :
      (w : World F) (s t : Coordinator F) → Effect w s t → IsKeyed s.jobs → IsKeyed t.jobs
  IsKeyed-Effect w s t (idle a b) h = rw a h
  IsKeyed-Effect w s t (pulled m b) h = Moves-IsKeyed PullStep-job_id m h
  IsKeyed-Effect w s t (posted j blob receipt g r e a b c) h =
      rw e (IsKeyed-put s.jobs j.job_id (finished_job blob receipt j) h refl)
  IsKeyed-Effect w s t (created k r n c i e a b d) h =
      rw e (IsKeyed-put s.jobs w.uuid (new_job w r (suc s.seq)) h refl)

  pub All-IsSound-Effect :
      (w : World F) (s t : Coordinator F)
      → Effect w s t
      → All IsSound (values s.jobs)
      → All IsSound (values t.jobs)
  All-IsSound-Effect w s t (idle a b) h = rw a h
  All-IsSound-Effect w s t (pulled m b) h = Moves-All IsSound PullStep-IsSound m h
  All-IsSound-Effect w s t (posted j blob receipt g r e a b c) h = rw e (
      All-put IsSound s.jobs j.job_id (finished_job blob receipt j) h
        (finished-IsSound j blob receipt r (All-get IsSound s.jobs j.job_id j h g)))
  All-IsSound-Effect w s t (created k r n c i e a b d) h =
      rw e (All-put IsSound s.jobs w.uuid (new_job w r (suc s.seq)) h (ground arith))

  All-seq_weaken :
      (a b : ℕ) (js : List (Job F)) → a ≤ b → All (λ j. j.seq ≤ a) js → All (λ j. j.seq ≤ b) js
  All-seq_weaken a b [] le h = tt
  All-seq_weaken a b (j ∷ js) le h = (omega arith, All-seq_weaken a b js le h.1)

  pub numbered-Effect :
      (w : World F) (s t : Coordinator F)
      → Effect w s t
      → All (λ j. j.seq ≤ s.seq) (values s.jobs)
      → All (λ j. j.seq ≤ t.seq) (values t.jobs)
  numbered-Effect w s t (idle a b) h =
      rw a (All-seq_weaken s.seq t.seq (values s.jobs) (omega (arith, b.same_seq)) h)
  numbered-Effect w s t (pulled m b) h =
      All-seq_weaken s.seq t.seq (values t.jobs) (omega (arith, b.same_seq))
        (Moves-All (λ j. j.seq ≤ s.seq) (PullStep-seq s.seq) m h)
  numbered-Effect w s t (posted j blob receipt g r e a b c) h = rw e (
      All-seq_weaken s.seq t.seq (values (put s.jobs j.job_id (finished_job blob receipt j)))
        (omega arith)
        (All-put (λ i. i.seq ≤ s.seq) s.jobs j.job_id (finished_job blob receipt j) h
          (All-get (λ i. i.seq ≤ s.seq) s.jobs j.job_id j h g)))
  numbered-Effect w s t (created k r n c i e a b d) h = rw e (
      All-put (λ i. i.seq ≤ t.seq) s.jobs w.uuid (new_job w r (suc s.seq))
        (All-seq_weaken s.seq t.seq (values s.jobs) (omega arith) h) (omega arith))
