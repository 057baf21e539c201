-- ===== src/Tests/Grid/Work.antt =====
-- The theorems on the work of a node, with an engine that answers and a job that does not open.
use nycc_grid.Tests.Toy.{toy_platform, toy_runtime}
use nycc_grid.Tests.Grid.{program}
use nycc_grid.Tests.Grid.Receipts.{agent}
use nycc_grid.Base.{ℕ, suc, ◌+◌, ◌≡◌, refl, true, false, none, some, [], ◌∷◌, ◌++◌}
use nycc_grid.Net.{Net, answered}
use nycc_grid.Protocol.{JobEnvelope, running}
use nycc_grid.Crypto.Box.{keygen, sign_keygen, seal, halves_match, unseal}
use nycc_grid.Node.{Agent}
use nycc_grid.Node.Work.{
  infer_body, first_choice, inferred, opened, infer, sealed_answer, duration_of, result_payload,
  post_answer, process, process_all, heartbeat_if_due, run_once,
}
use nycc_grid.Node.Rounds.{Passed, run_once-Passed, process_all_poison}
use nycc_grid.Node.Answered.{Answered}

unfoldable pub work : Unit {0}
unfolding program keygen sign_keygen seal unseal halves_match infer_body first_choice inferred
    opened infer sealed_answer duration_of result_payload post_answer process process_all
    heartbeat_if_due run_once
work = tt

-- 200 to every call, with what an engine says.
abbrev pub helpful : Net ℕ ℕ
helpful = record {
  answer = λ s call. (suc s, answered (200, 8 ∷ []));
  seconds = λ s. "1";
  nonce = λ s. "fresh";
  monotonic = λ s. s;
  iso_now = λ s. "now";
  entropy = λ s k. [];
  sleep = λ x s. suc s;
  meter = λ s. none;
}

abbrev pub worker : Agent ℕ
worker = record agent { box_pub_b64 = "key"; box_prv_b64 = "key" }

abbrev pub job : JobEnvelope
job = record {
  job_id = "j1";
  to_node = "n";
  blob_b64 = "sig";
  reply_pubkey = "key";
  status = running;
}

abbrev unknown : Agent ℕ
unknown = record worker { registered = false }

abbrev broken : JobEnvelope
broken = record job { blob_b64 = "no base64" }

abbrev known : Agent ℕ
known = record worker { registered = true; last_heartbeat = 1 }

pass_returns : run_once helpful unknown 0 ≡ (known, 2, some 0)
unfolding work
pass_returns = refl

broken_raises : (process helpful worker (process_all helpful worker 0 (job ∷ [])).0 broken).1 ≡ none
unfolding work
broken_raises = refl

two_jobs : (process_all helpful worker 0 (job ∷ broken ∷ job ∷ [])).1 ≡ 2
unfolding work
two_jobs = refl

run_once-Passed_example : Passed helpful unknown 0 known
run_once-Passed_example = run_once-Passed helpful unknown known 0 2 0 pass_returns

process_all_poison_example : process_all helpful worker 0 ((job ∷ []) ++ broken ∷ job ∷ []) ≡ (
    let t = (process helpful worker (process_all helpful worker 0 (job ∷ [])).0 broken).0 in
    (
      (process_all helpful worker t (job ∷ [])).0,
      (process_all helpful worker 0 (job ∷ [])).1 + (process_all helpful worker t (job ∷ [])).1,
    ))
process_all_poison_example =
    process_all_poison helpful worker 0 (job ∷ []) (job ∷ []) broken broken_raises
