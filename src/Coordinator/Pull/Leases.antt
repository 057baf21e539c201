-- ===== src/Coordinator/Pull/Leases.antt =====
-- The loop of `_pull` in pygrid/testkit.py moves jobs only along the life of a job.
use nycc_grid.Base.{
  leb, Bool-cases, length, All, ◌==◌, ℕ, ◌≤◌, ◌<◌, String, ◌≡◌, refl, ◌⊎◌, inl, inr, false, Option,
  none, some, List, [], ◌∷◌, arith, eq_iff, nat_eq, string_eq, pair_eq,
}
use nycc_grid.Base.Dict.{get, put, get-put, values}
use nycc_grid.Coordinator.State.{pull_max, max_attempts, Job, Coordinator, World, touch}
use nycc_grid.Coordinator.Life.{Jobs, PullStep, Moves, IsKeyed, lease, renew, give_up, here, then}
use nycc_grid.Coordinator.Pull.{
  insert_by_seq, sort_by_seq, Action, pull_action, failed_job, delivered_job, visit, pull_loop,
  pull_jobs, skip, fail, deliver,
}
use nycc_grid.Protocol.{JobEnvelope, queued, running}

module _ {F : Type 0} where
  -- Every listed job is in the table as it is listed.
  abbrev Current : Jobs F → List (Job F) → Type 0
  Current d js = All (λ j. get d j.job_id ≡ some j) js

  abbrev Avoids : String → List (Job F) → Type 0
  Avoids k js = All (λ j. (j.job_id == k) ≡ false) js

  -- No id is listed twice.
  abbrev Distinct : List (Job F) → Type 0
  Distinct [] = Unit
  Distinct (j ∷ js) = Avoids j.job_id js × Distinct js

  Current-cons :
      (k : String) (v : Job F) (d : Jobs F) (js : List (Job F))
      → get d k ≡ none
      → Current d js
      → Current ((k, v) ∷ d) js
  unfolding get
  Current-cons k v d [] h c = tt
  Current-cons k v d (j ∷ js) h c = (ground (arith, eq_iff k j.job_id), Current-cons k v d js h c.1)

  Avoids-of_Current :
      (k : String) (d : Jobs F) (js : List (Job F)) → get d k ≡ none → Current d js → Avoids k js
  Avoids-of_Current k d [] h c = tt
  Avoids-of_Current k d (j ∷ js) h c =
      (ground (arith, eq_iff j.job_id k), Avoids-of_Current k d js h c.1)

  Current-values : (d : Jobs F) → IsKeyed d → Current d (values d)
  unfolding get
  Current-values [] h = tt
  Current-values ((k, j) ∷ d) h =
      (ground (arith, eq_iff k j.job_id), Current-cons k j d (values d) h.1 (Current-values d h.2))

  Distinct-values : (d : Jobs F) → IsKeyed d → Distinct (values d)
  Distinct-values [] h = tt
  Distinct-values ((k, j) ∷ d) h =
      (rw h.0 (Avoids-of_Current k d (values d) h.1 (Current-values d h.2)), Distinct-values d h.2)

  Current-put :
      (d : Jobs F) (k : String) (v : Job F) (js : List (Job F))
      → Avoids k js
      → Current d js
      → Current (put d k v) js
  Current-put d k v [] a c = tt
  Current-put d k v (j ∷ js) a c = (
    ground (arith, get-put d k j.job_id v, eq_iff k j.job_id, eq_iff j.job_id k),
    Current-put d k v js a.1 c.1,
  )

  deliver_cases :
      (node_id : String) (now_ms : ℕ) (j : Job F)
      → pull_action node_id now_ms j ≡ deliver
      → (j.status ≡ queued)
        ⊎ ((j.status ≡ running) × (j.lease_until_ms ≤ now_ms) × (j.attempts < max_attempts))
  unfolding pull_action
  deliver_cases node_id now_ms j h = ground arith

  pub PullStep-of_deliver :
      (node_id : String) (now_ms : ℕ) (j : Job F)
      → pull_action node_id now_ms j ≡ deliver
      → PullStep j (delivered_job now_ms j)
  PullStep-of_deliver node_id now_ms j h = elim (deliver_cases node_id now_ms j h) [
    | inl q ↦ lease j now_ms q
    | inr r ↦ renew j now_ms r.0 r.1 r.2
  ]

  fail_facts :
      (node_id : String) (now_ms : ℕ) (j : Job F)
      → pull_action node_id now_ms j ≡ fail
      → (j.status ≡ running) × (j.lease_until_ms ≤ now_ms) × (max_attempts ≤ j.attempts)
  unfolding pull_action
  fail_facts node_id now_ms j h = ground arith

  PullStep-of_fail :
      (node_id : String) (now_ms : ℕ) (j : Job F)
      → pull_action node_id now_ms j ≡ fail
      → PullStep j (failed_job j)
  PullStep-of_fail node_id now_ms j h =
      let r = fail_facts node_id now_ms j h in give_up j now_ms r.0 r.1 r.2

  -- One round of the loop is at most one step of its job.
  visit-Moves :
      (node_id : String) (now_ms : ℕ) (a : Action) (j : Job F) (out : List JobEnvelope)
      {d e : Jobs F}
      → pull_action node_id now_ms j ≡ a
      → Moves PullStep d e
      → get e j.job_id ≡ some j
      → Moves PullStep d (visit now_ms a j (out, e)).1
  unfolding visit
  visit-Moves node_id now_ms skip j out h m c = m
  visit-Moves node_id now_ms fail j out h m c =
      then j (failed_job j) m c (PullStep-of_fail node_id now_ms j h)
  visit-Moves node_id now_ms deliver j out h m c =
      then j (delivered_job now_ms j) m c (PullStep-of_deliver node_id now_ms j h)

  Current-visit :
      (now_ms : ℕ) (a : Action) (j : Job F) (out : List JobEnvelope) (e : Jobs F)
      (js : List (Job F))
      → Avoids j.job_id js
      → Current e js
      → Current (visit now_ms a j (out, e)).1 js
  unfolding visit
  Current-visit now_ms skip j out e js a c = c
  Current-visit now_ms fail j out e js a c = Current-put e j.job_id (failed_job j) js a c
  Current-visit now_ms deliver j out e js a c =
      Current-put e j.job_id (delivered_job now_ms j) js a c

  pull_loop-Moves :
      (node_id : String) (now_ms : ℕ) (js : List (Job F)) (out : List JobEnvelope) {d e : Jobs F}
      → Current e js
      → Distinct js
      → Moves PullStep d e
      → Moves PullStep d (pull_loop node_id now_ms js (out, e)).1
  unfolding pull_loop
  pull_loop-Moves node_id now_ms [] out c u m = m
  pull_loop-Moves node_id now_ms (j ∷ js) out {e = e} c u m =
      elim (Bool-cases (leb pull_max (length out))) [
        | inl full ↦ rw full m
        | inr room ↦
            let a = pull_action node_id now_ms j in
            let next = visit now_ms a j (out, e) in
            rw room (
              pull_loop-Moves node_id now_ms js next.0 (Current-visit now_ms a j out e js u.0 c.1)
                u.1 (visit-Moves node_id now_ms a j out refl m c.0))
      ]

  All-insert_by_seq :
      (P : Job F → Type 0) (j : Job F) (js : List (Job F))
      → P j
      → All P js
      → All P (insert_by_seq j js)
  unfolding insert_by_seq
  All-insert_by_seq P j [] p a = (p, tt)
  All-insert_by_seq P j (k ∷ ks) p a = elim (Bool-cases (leb j.seq k.seq)) [
    | inl le ↦ rw le (p, a)
    | inr gt ↦ rw gt (a.0, All-insert_by_seq P j ks p a.1)
  ]

  All-sort_by_seq : (P : Job F → Type 0) (js : List (Job F)) → All P js → All P (sort_by_seq js)
  unfolding sort_by_seq
  All-sort_by_seq P [] a = tt
  All-sort_by_seq P (j ∷ js) a =
      All-insert_by_seq P j (sort_by_seq js) a.0 (All-sort_by_seq P js a.1)

  Distinct-insert_by_seq :
      (j : Job F) (js : List (Job F))
      → Avoids j.job_id js
      → Distinct js
      → Distinct (insert_by_seq j js)
  unfolding insert_by_seq
  Distinct-insert_by_seq j [] a u = (tt, tt)
  Distinct-insert_by_seq j (k ∷ ks) a u = elim (Bool-cases (leb j.seq k.seq)) [
    | inl le ↦ rw le (a, u)
    | inr gt ↦ rw gt (
      All-insert_by_seq (λ i. (i.job_id == k.job_id) ≡ false) j ks
          (ground (arith, eq_iff k.job_id j.job_id, eq_iff j.job_id k.job_id, a.0)) u.0,
      Distinct-insert_by_seq j ks a.1 u.1,
    )
  ]

  Distinct-sort_by_seq : (js : List (Job F)) → Distinct js → Distinct (sort_by_seq js)
  unfolding sort_by_seq
  Distinct-sort_by_seq [] u = tt
  Distinct-sort_by_seq (j ∷ js) u =
      Distinct-insert_by_seq j (sort_by_seq js)
        (All-sort_by_seq (λ i. (i.job_id == j.job_id) ≡ false) js u.0) (Distinct-sort_by_seq js u.1)

  -- `touch` leaves the jobs.
  pub touch-jobs :
      (time : F) (node_id : String) (wattage : Option F) (source : Option String)
      (s : Coordinator F)
      → (touch time node_id wattage source s).jobs ≡ s.jobs
  unfolding touch
  touch-jobs time node_id wattage source s = ground arith

  -- A pull moves the stored jobs by leases, renewed leases and failures, and nothing else.
  pub pull_jobs-Moves :
      (w : World F) (node_id : String) (s : Coordinator F)
      → IsKeyed s.jobs
      → Moves PullStep s.jobs (pull_jobs w node_id s).0.jobs
  unfolding pull_jobs
  pull_jobs-Moves w node_id s h = rw (touch-jobs w.time node_id none none s) (
      pull_loop-Moves node_id w.now_ms (sort_by_seq (values s.jobs)) []
        (All-sort_by_seq (λ j. get s.jobs j.job_id ≡ some j) (values s.jobs)
          (Current-values s.jobs h))
        (Distinct-sort_by_seq (values s.jobs) (Distinct-values s.jobs h)) here)
