-- ===== src/Tests/Grid/Runs.antt =====
-- The theorems on runs of the coordinator, at the run of Tests.Grid.
use nycc_grid.Tests.Toy.{submit_body, toy_platform, toy_runtime}
use nycc_grid.Tests.Grid.{
  program, post, start0, w1, w2, registered, submitted, leased, answered, run_Reach,
}
use nycc_grid.Base.{
  take, keep, ℕ, ◌≡◌, refl, true, none, some, [], ◌∷◌, map, arith, string_eq, pair_eq, nat_eq,
}
use nycc_grid.Json.{fields, bool, str}
use nycc_grid.Coordinator.State.{pull_max, Job, Coordinator, send}
use nycc_grid.Coordinator.Submit.{job_request, idem_key_of, new_job, create_job}
use nycc_grid.Coordinator.Pull.{sort_by_seq, delivered_job, pull_jobs}
use nycc_grid.Coordinator.Invariant.{Inv, IsFresh}
use nycc_grid.Coordinator.Invariant.Reach.{
  Reach, reachable-Inv, get_request, post_request, start, after,
}
use nycc_grid.Coordinator.Invariant.Lives.{IsLater, Reach-IsLater}
use nycc_grid.Coordinator.Result.{post_result, done_answer, job_status}
use nycc_grid.Coordinator.Life.{PullStep, Moves, IsKeyed}
use nycc_grid.Base.Dict.{get, values}
use nycc_grid.Coordinator.Runs.Retries.{create_job-idempotent}
use nycc_grid.Coordinator.Pull.Order.{is_due, handed, pull_jobs-take}
use nycc_grid.Coordinator.Pull.Leases.{pull_jobs-Moves}
use nycc_grid.Coordinator.Runs.Answers.{result-job_status}

-- The job of the run, as it waits, as it runs.
abbrev waiting_job : Job ℕ
waiting_job = new_job w1 ("n", "sealed", "r") 1

abbrev running_job : Job ℕ
running_job = delivered_job 2000 waiting_job

submitted-Reach : Reach start0 submitted
unfolding program
submitted-Reach =
    after (after start (post_request w1 (post "/v1/nodes/register" 1) refl))
      (post_request w1 (post "/v1/jobs" 2) refl)

leased-Reach : Reach start0 leased
unfolding program
leased-Reach = after submitted-Reach (get_request w2 (post "/v1/jobs/pull" 0) refl)

later_Reach : Reach submitted answered
unfolding program
later_Reach =
    after (after start (get_request w2 (post "/v1/jobs/pull" 0) refl))
      (post_request w2 (post "/v1/jobs/result" 3) refl)

reachable-Inv_example : Inv answered
reachable-Inv_example = reachable-Inv none answered run_Reach

submitted_job : get submitted.jobs "j1" ≡ some waiting_job
unfolding program
submitted_job = refl

leased_job : get leased.jobs "j1" ≡ some running_job
unfolding program
leased_job = refl

Reach-IsLater_example : (k : Job ℕ) × (get answered.jobs "j1" ≡ some k) × IsLater waiting_job k
Reach-IsLater_example =
    Reach-IsLater "j1" waiting_job submitted answered later_Reach
      (reachable-Inv none submitted submitted-Reach) submitted_job

leased-IsFresh : IsFresh w2 leased
unfolding program
leased-IsFresh = refl

abbrev finished : Coordinator ℕ
finished = (post_result w2 "n" "answer" none running_job leased).0

result-job_status_example : job_status "j1" finished ≡ done_answer (some "answer") none
result-job_status_example =
    result-job_status w2 "n" "j1" "answer" none running_job leased finished
      (reachable-Inv none leased leased-Reach) leased-IsFresh leased_job refl start

pull_jobs-take_example :
    (pull_jobs w2 "n" submitted).1
    ≡ take pull_max
        (map (handed 2000) (keep (is_due "n" 2000) (sort_by_seq (values submitted.jobs))))
pull_jobs-take_example = pull_jobs-take w2 "n" submitted

submitted_IsKeyed : IsKeyed submitted.jobs
submitted_IsKeyed = (reachable-Inv none submitted submitted-Reach).keyed

pull_jobs-Moves_example : Moves PullStep submitted.jobs (pull_jobs w2 "n" submitted).0.jobs
pull_jobs-Moves_example = pull_jobs-Moves w2 "n" submitted submitted_IsKeyed

registered-Inv : Inv registered
unfolding program
registered-Inv =
    reachable-Inv none registered (after start (post_request w1 (post "/v1/nodes/register" 1) refl))

registered-IsFresh : IsFresh w1 registered
unfolding program
registered-IsFresh = refl

submit_request : job_request submit_body ≡ some ("n", "sealed", "r")
unfolding program
submit_request = refl

submit_key : idem_key_of "n" submit_body ≡ some ("n", "once")
unfolding program
submit_key = refl

submit_reply :
    (create_job w1 submit_body registered).1 ≡ send 200 (fields (("job_id", str "j1") ∷ []))
unfolding program
submit_reply = refl

create_job-idempotent_example :
    create_job w2 submit_body (create_job w1 submit_body registered).0 ≡ (
      (create_job w1 submit_body registered).0,
      send 200 (fields (("job_id", str "j1") ∷ ("duplicate", bool true) ∷ [])),
    )
create_job-idempotent_example =
    create_job-idempotent w1 w2 submit_body submit_body registered
      (create_job w1 submit_body registered).0 ("n", "sealed", "r") ("n", "sealed", "r")
      ("n", "once") "j1" registered-Inv registered-IsFresh submit_request submit_key submit_reply
      start submit_request refl (omega arith) submit_key
