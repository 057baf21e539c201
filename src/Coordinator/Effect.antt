-- ===== src/Coordinator/Effect.antt =====
-- What one request does to the jobs that MockCoordinator of pygrid/testkit.py stores: nothing, a
-- pull, a first result, or a new job. The theorems about the tables go by these four cases.
pub mod Requests
pub mod Routes
use nycc_grid.Base.{
  ltb, leb, Bool-cases, Option-cases, suc, ◌<◌, String, count, ◌≡◌, refl, inl, inr, true, not, ◌||◌,
  Option, none, some, [], ◌∷◌, arith, eq_iff, nat_eq, string_eq, pair_eq,
}
use nycc_grid.Coordinator.State.{
  max_blob_b64_bytes, max_queued_per_node, Job, Coordinator, World, header_matches, queued_count,
  touch,
}
use nycc_grid.Coordinator.Life.{Jobs, PullStep, Moves, IsKeyed}
use nycc_grid.Coordinator.Submit.{
  remember, recall, job_request, idem_key_of, new_job, enqueue, admit, create_job,
}
use nycc_grid.Base.Dict.{Dict, get, put, has}
use nycc_grid.Json.{Fields, nonempty}
use nycc_grid.Protocol.{running}
use nycc_grid.Coordinator.Result.{finished_job}
use nycc_grid.Coordinator.Pull.{pull_jobs, pull}
use nycc_grid.Coordinator.Pull.Leases.{pull_jobs-Moves}

module _ {F : Type 0} where
  pub record SameBooks (s t : Coordinator F) : Type 0 where
    pub same_done : t.jobs_done ≡ s.jobs_done
    pub same_seq : t.seq ≡ s.seq
    pub same_idempotency : t.idempotency ≡ s.idempotency

  pub data Effect (w : World F) (s t : Coordinator F) : Type 0 where
    idle : t.jobs ≡ s.jobs → SameBooks s t → Effect w s t
    pulled : Moves PullStep s.jobs t.jobs → SameBooks s t → Effect w s t
    posted :
        (j : Job F) (blob_b64 : String) (receipt : Option (Fields F))
        → get s.jobs j.job_id ≡ some j
        → j.status ≡ running
        → t.jobs ≡ put s.jobs j.job_id (finished_job blob_b64 receipt j)
        → t.jobs_done ≡ suc s.jobs_done
        → t.seq ≡ s.seq
        → t.idempotency ≡ s.idempotency
        → Effect w s t
    created :
        (idem_key : Option (String × String)) (request : String × String × String)
        → has s.nodes request.0 ≡ true
        → queued_count s request.0 < max_queued_per_node
        → recall idem_key s.idempotency ≡ none
        → t.jobs ≡ put s.jobs w.uuid (new_job w request (suc s.seq))
        → t.jobs_done ≡ s.jobs_done
        → t.seq ≡ suc s.seq
        → t.idempotency ≡ remember idem_key w.uuid s.idempotency
        → Effect w s t

  pub touch-jobs :
      (time : F) (node_id : String) (wattage : Option F) (source : Option String)
      (s : Coordinator F)
      → (touch time node_id wattage source s).jobs ≡ s.jobs
  unfolding touch
  touch-jobs time node_id wattage source s = ground arith

  pub touch-SameBooks :
      (time : F) (node_id : String) (wattage : Option F) (source : Option String)
      (s : Coordinator F)
      → SameBooks s (touch time node_id wattage source s)
  unfolding touch
  touch-SameBooks time node_id wattage source s = ground arith

  pub get-IsKeyed :
      (d : Jobs F) (k : String) (j : Job F) → IsKeyed d → get d k ≡ some j → j.job_id ≡ k
  unfolding get
  get-IsKeyed [] k j h g = cc
  get-IsKeyed ((i, v) ∷ d) k j h g = ground (arith, eq_iff i k, get-IsKeyed d k j h.2)

module _ {F : Type 0} (w : World F) (s : Coordinator F) where
  -- Requests that answer without touching the books.
  pub Effect-idle : Effect w s s
  Effect-idle = idle refl (record { same_done = refl; same_seq = refl; same_idempotency = refl })

  pub Effect-touch :
      (node_id : String) (wattage : Option F) (source : Option String)
      → Effect w s (touch w.time node_id wattage source s)
  Effect-touch node_id wattage source =
      idle (touch-jobs w.time node_id wattage source s)
        (touch-SameBooks w.time node_id wattage source s)

  pull_jobs-SameBooks : (node_id : String) → SameBooks s (pull_jobs w node_id s).0
  unfolding pull_jobs
  pull_jobs-SameBooks node_id =
      let b = touch-SameBooks w.time node_id none none s in
      record {
        same_done = b.same_done;
        same_seq = b.same_seq;
        same_idempotency = b.same_idempotency;
      }

  Effect-pull_jobs : (node_id : String) → IsKeyed s.jobs → Effect w s (pull_jobs w node_id s).0
  Effect-pull_jobs node_id h = pulled (pull_jobs-Moves w node_id s h) (pull_jobs-SameBooks node_id)

  Effect-admit :
      (idem_key : Option (String × String)) (request : String × String × String)
      → Effect w s (admit w idem_key request s).0
  unfolding enqueue
  Effect-admit idem_key request = elim (Bool-cases (has s.nodes request.0)) [
    | inr e ↦ rw e Effect-idle
    | inl known ↦ elim (Option-cases (recall idem_key s.idempotency)) [
      | inr (job_id, e) ↦ rw (known, e) Effect-idle
      | inl e ↦ elim (Bool-cases (leb max_queued_per_node (queued_count s request.0))) [
        | inl full ↦ rw (known, e, full) Effect-idle
        | inr room ↦
            rw (known, e, room)
              (created idem_key request known (ground arith) e refl refl refl refl)
      ]
    ]
  ]

  pub Effect-create_job : (body : Fields F) → Effect w s (create_job w body s).0
  unfolding create_job
  Effect-create_job body = elim (Option-cases (job_request body)) [
    | inl e ↦ rw (e, create_job) Effect-idle
    | inr (request, e) ↦ elim (Bool-cases (ltb max_blob_b64_bytes (count request.1))) [
      | inl large ↦ rw (e, create_job) (rw large Effect-idle)
      | inr fits ↦ rw (e, create_job) (rw fits (Effect-admit (idem_key_of request.0 body) request))
    ]
  ]

  pub Effect-pull :
      (header_id : Option String) (query : Dict String String)
      → IsKeyed s.jobs
      → Effect w s (pull w header_id query s).0
  unfolding pull
  Effect-pull header_id query h = elim (Option-cases (get query "node_id")) [
    | inl e ↦ rw (e, pull) Effect-idle
    | inr (node_id, e) ↦ elim (Bool-cases (not (nonempty node_id) || not (has s.nodes node_id))) [
      | inl unknown ↦ rw (e, pull) (rw unknown Effect-idle)
      | inr known ↦ elim (Bool-cases (header_matches header_id node_id)) [
        | inr e2 ↦ rw (e, pull) (rw known (rw e2 Effect-idle))
        | inl e2 ↦ rw (e, pull) (rw known (rw e2 (Effect-pull_jobs node_id h)))
      ]
    ]
  ]
