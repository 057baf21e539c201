-- ===== src/Coordinator/Pull.antt =====
-- `_pull` of _CoordinatorHandler in pygrid/testkit.py: the leases.
pub mod Leases
pub mod Order
use nycc_grid.Base.{
  leb, if◌then◌else◌, length, ◌==◌, ℕ, ◌+◌, String, not, ◌&&◌, ◌||◌, Option, none, some, List, [],
  ◌∷◌, ◌++◌, nat_eq, string_eq, pair_eq,
}
use nycc_grid.Base.Dict.{Dict, get, put, has, values}
use nycc_grid.Json.{Items, fields, nonempty, arr, obj, nil, cons}
use nycc_grid.Protocol.{JobEnvelope, JobEnvelope_to_dict, running, failed}
use nycc_grid.Coordinator.State.{
  pull_max, lease_ms, max_attempts, Job, Coordinator, Reply, refuse, World, is_queued, is_running,
  header_matches, envelope, touch, send,
}

module _ {F : Type 0} where
  -- `sorted(jobs, key=lambda j: j["seq"])`, by stable insertion.
  unfoldable pub insert_by_seq : Job F → List (Job F) → List (Job F)
  insert_by_seq j [] = j ∷ []
  insert_by_seq j (k ∷ ks) = if leb j.seq k.seq then j ∷ k ∷ ks else k ∷ insert_by_seq j ks

  unfoldable pub sort_by_seq : List (Job F) → List (Job F)
  sort_by_seq [] = []
  sort_by_seq (j ∷ js) = insert_by_seq j (sort_by_seq js)

-- What one round of the loop of `_pull` does with a job.
pub data Action : Type 0 where
  skip fail deliver : Action

module _ {F : Type 0} where
  unfoldable pub pull_action : String → ℕ → Job F → Action
  pull_action node_id now_ms job =
      if not (job.to_node == node_id)
      then skip
      else if is_queued job.status
      then deliver
      else if is_running job.status && leb job.lease_until_ms now_ms
      then (if leb max_attempts job.attempts then fail else deliver)
      else skip

  abbrev pub failed_job : Job F → Job F
  failed_job job = record job { status = failed }

  abbrev pub delivered_job : ℕ → Job F → Job F
  delivered_job now_ms job = record job {
    status = running;
    lease_until_ms = now_ms + lease_ms;
    attempts = job.attempts + 1;
  }

  -- One round: the envelopes so far, and the jobs with this one as the round leaves it.
  unfoldable pub visit :
      ℕ
      → Action
      → Job F
      → List JobEnvelope × Dict String (Job F)
      → List JobEnvelope × Dict String (Job F)
  visit now_ms skip job (out, jobs) = (out, jobs)
  visit now_ms fail job (out, jobs) = (out, put jobs job.job_id (failed_job job))
  visit now_ms deliver job (out, jobs) = (
    out ++ envelope (delivered_job now_ms job) ∷ [],
    put jobs job.job_id (delivered_job now_ms job),
  )

  -- The loop, which stops once PULL_MAX envelopes are out.
  unfoldable pub pull_loop :
      String
      → ℕ
      → List (Job F)
      → List JobEnvelope × Dict String (Job F)
      → List JobEnvelope × Dict String (Job F)
  pull_loop node_id now_ms [] acc = acc
  pull_loop node_id now_ms (job ∷ rest) acc =
      let more =
        pull_loop node_id now_ms rest (visit now_ms (pull_action node_id now_ms job) job acc) in
      if leb pull_max (length acc.0) then acc else more

  abbrev pub envelope_items : List JobEnvelope → Items F
  envelope_items [] = nil
  envelope_items (j ∷ js) = cons (obj (JobEnvelope_to_dict j)) (envelope_items js)

  -- The state and the envelopes of a pull by a known node.
  unfoldable pub pull_jobs : World F → String → Coordinator F → Coordinator F × List JobEnvelope
  pull_jobs w node_id s =
      let t = touch w.time node_id none none s in
      let (out, jobs) = pull_loop node_id w.now_ms (sort_by_seq (values t.jobs)) ([], t.jobs) in
      (record t { jobs = jobs }, out)

  unfoldable pub pull :
      World F → Option String → Dict String String → Coordinator F → Coordinator F × Reply F
  pull w header_id query s = elim (get query "node_id") [
    | none ↦ (s, refuse 404 "unknown node_id, re-register")
    | some node_id ↦
        if not (nonempty node_id) || not (has s.nodes node_id)
        then (s, refuse 404 "unknown node_id, re-register")
        else if not (header_matches header_id node_id)
        then (s, refuse 403 "signing node does not match node_id")
        else let (t, out) = pull_jobs w node_id s in
          (t, send 200 (fields (("jobs", arr (envelope_items out)) ∷ [])))
  ]
