-- ===== src/Coordinator/Runs/Answers.antt =====
-- The first result of a job is the one that its submitter reads.
use nycc_grid.Base.{
  String, ◌≡◌, refl, Option, none, some, arith, eq_iff, nat_eq, string_eq, pair_eq,
}
use nycc_grid.Coordinator.State.{Job, Coordinator, World, touch}
use nycc_grid.Coordinator.Invariant.{Inv, IsFresh}
use nycc_grid.Coordinator.Result.{finished_job, post_result, done_answer, job_status}
use nycc_grid.Runtime.{Platform, Runtime}
use nycc_grid.Json.{Fields}
use nycc_grid.Base.Dict.{get, get-put}
use nycc_grid.Protocol.{running}
use nycc_grid.Coordinator.Invariant.Reach.{Reach, Inv-Effect}
use nycc_grid.Coordinator.Effect.{get-IsKeyed}
use nycc_grid.Coordinator.Effect.Requests.{Effect-post_result}
use nycc_grid.Coordinator.Invariant.Lives.{Reach-IsLater}

module _ {F : Type 0} where
  -- A posted result is stored with the job.
  post_result-stores :
      (w : World F) (node_id blob_b64 : String) (receipt : Option (Fields F)) (j : Job F)
      (s : Coordinator F)
      → j.status ≡ running
      → get (post_result w node_id blob_b64 receipt j s).0.jobs j.job_id
        ≡ some (finished_job blob_b64 receipt j)
  unfolding post_result
  post_result-stores w node_id blob_b64 receipt j s r =
      let d = (touch w.time node_id none none s).jobs in
      ground (
        arith,
        get-put d j.job_id j.job_id (finished_job blob_b64 receipt j),
        eq_iff j.job_id j.job_id,
      )

  job_status-done :
      (id blob_b64 : String) (receipt : Option (Fields F)) (j k : Job F) (t : Coordinator F)
      → get t.jobs id ≡ some k
      → k ≡ finished_job blob_b64 receipt j
      → job_status id t ≡ done_answer (some blob_b64) receipt
  unfolding job_status
  job_status-done id blob_b64 receipt j k t g e = ground arith

module _ {F : Type 0} ⦃pl : Platform⦄ ⦃rt : Runtime F⦄ where
  -- When its node posts a result for a running job, every later GET of the job's status answers
  -- with exactly that blob and that receipt, through any run of requests, later posts included.
  pub result-job_status :
      (w : World F) (node_id job_id blob_b64 : String) (receipt : Option (Fields F)) (j : Job F)
      (s t : Coordinator F)
      → Inv s
      → IsFresh w s
      → get s.jobs job_id ≡ some j
      → j.status ≡ running
      → Reach (post_result w node_id blob_b64 receipt j s).0 t
      → job_status job_id t ≡ done_answer (some blob_b64) receipt
  result-job_status w node_id job_id blob_b64 receipt j s t h fresh g r run =
      let own = get-IsKeyed s.jobs job_id j h.keyed g in
      let u = (post_result w node_id blob_b64 receipt j s).0 in
      let hu =
        Inv-Effect w s u (Effect-post_result w s node_id job_id blob_b64 receipt j h.keyed g) fresh
          h in
      let gu : get u.jobs job_id ≡ some (finished_job blob_b64 receipt j) =
        cc (own, post_result-stores w node_id blob_b64 receipt j s r) in
      let (k, gk, l) = Reach-IsLater job_id (finished_job blob_b64 receipt j) u t run hu gu in
      job_status-done job_id blob_b64 receipt j k t gk (l.done_final refl)
