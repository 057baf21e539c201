-- ===== src/Tests/Grid/Delivery.antt =====
-- The theorems on a prompt and its answer, at the job "j1" of the run and the agent "n".
use nycc_grid.Tests.Toy.{zeros, small_receipt, toy_platform, toy_runtime}
use nycc_grid.Tests.Grid.Work.{work, helpful, worker, job}
use nycc_grid.Tests.Grid.Waiting.{client_side, plain_client}
use nycc_grid.Base.{
  ℕ, suc, String, ◌≡◌, refl, true, Option, none, some, [], ◌∷◌, arith, string_eq, pair_eq, nat_eq,
}
use nycc_grid.Base.Int.{pos}
use nycc_grid.Json.{Fields, fields, str, arr, obj, nil, cons}
use nycc_grid.Text.{codes}
use nycc_grid.Crypto.Pairs.{IsBoxPair}
use nycc_grid.Node.Work.{opened, result_payload}
use nycc_grid.Client.Submit.{prompt_payload, submission}
use nycc_grid.Client.Delivery.Prompt.{opened-submission}
use nycc_grid.Runtime.{Bytes}
use nycc_grid.Coordinator.State.{Job, send}
use nycc_grid.Coordinator.Result.{job_status, result}
use nycc_grid.Node.{receipt_fields}
use nycc_grid.Tests.Grid.{program, post, w1, w2, leased}
use nycc_grid.Base.Dict.{get}
use nycc_grid.Client.Delivery.Returned.{IsListed}
use nycc_grid.Coordinator.Invariant.{Inv, IsFresh}
use nycc_grid.Client.Delivery.Stored.{IsPostable, result_payload-delivered}
use nycc_grid.Coordinator.Pull.{delivered_job}
use nycc_grid.Client.Answer.Trusted.{Trusted, result_with_receipt-Trusted}
use nycc_grid.Client.Wait.Polled.{Polled}
use nycc_grid.Net.{Net, answered}
use nycc_grid.Client.Setup.{GridClient}
use nycc_grid.Client.Answer.{text_of, unsealed, receipt_part, read_result, result_with_receipt}
use nycc_grid.Coordinator.Invariant.Reach.{reachable-Inv, get_request, post_request, start, after}
use nycc_grid.Client.Calls.{returned}
use nycc_grid.Coordinator.Submit.{new_job}
use nycc_grid.Tests.Grid.Carded.{sign_pair}

box_pair : IsBoxPair "key" "key" (codes "json")
unfolding work
box_pair = record {
  public = zeros 32;
  private = zeros 32;
  public_decodes = refl;
  private_decodes = refl;
  match = refl;
  opens = λ draw sealed e. refl;
  survives = λ draw sealed e. (e, e, refl);
}

abbrev prompt_node : Fields ℕ
prompt_node = fields (("node_id", str "n") ∷ ("pubkey", str "key") ∷ [])

abbrev prompt_body : Fields ℕ
prompt_body =
    fields (("to_node", str "n") ∷ ("blob_b64", str "sig") ∷ ("reply_pubkey", str "r") ∷ [])

prompt_made : submission prompt_node "r" [] (prompt_payload "hi" (pos 64) 0) none ≡ some prompt_body
unfolding client_side
prompt_made = refl

opened-submission_example :
    (request_raw : Bytes) × (opened worker job
      ≡ some (request_raw, obj (prompt_payload "hi" (pos 64) 0)))
opened-submission_example =
    opened-submission worker job prompt_node "hi" "r" (pos 64) 0 [] none prompt_body box_pair refl
      refl prompt_made refl

abbrev posted_receipt_fields : Fields ℕ
posted_receipt_fields = receipt_fields worker "j1" "now" "now" (pos 1000) (7 ∷ []) (7 ∷ [])

abbrev posted_receipt : Fields ℕ
posted_receipt = fields (("receipt", obj posted_receipt_fields) ∷ ("sig", str "sig") ∷ [])

abbrev posted_body : Fields ℕ
posted_body =
    fields (("job_id", str "j1") ∷ ("blob_b64", str "sig") ∷ ("receipt", obj posted_receipt) ∷ [])

answer_made : result_payload helpful worker job 0 1 (7 ∷ []) (str "answer") ≡ some posted_body
unfolding work
answer_made = refl

abbrev listed_worker : Fields ℕ
listed_worker = fields (("node_id", str "n") ∷ ("verify_key", str "key") ∷ [])

abbrev listing : ℕ → String → Option (Fields ℕ)
listing k path = some (fields (("nodes", arr (cons (obj listed_worker) nil)) ∷ []))

worker-IsListed : IsListed listing worker
unfolding program
worker-IsListed = record {
  listed = listed_worker ∷ [];
  node = listed_worker;
  walked = refl;
  found = refl;
  key = refl;
}

postable : IsPostable worker.node_id "j1" "sig" posted_receipt posted_body
unfolding program
postable = record {
  some_node = refl;
  some_blob = refl;
  job_field = refl;
  blob_field = refl;
  receipt_field = refl;
  blob_fits = omega arith;
  receipt_fits = omega arith;
}

abbrev leased_job : Job ℕ
leased_job = delivered_job 2000 (new_job w1 ("n", "sealed", "r") 1)

leased-Inv : Inv leased
unfolding program
leased-Inv = reachable-Inv none leased (
    after
      (after (after start (post_request w1 (post "/v1/nodes/register" 1) refl))
        (post_request w1 (post "/v1/jobs" 2) refl))
      (get_request w2 (post "/v1/jobs/pull" 0) refl))

leased-IsFresh : IsFresh w2 leased
unfolding program
leased-IsFresh = refl

leased_stored : get leased.jobs "j1" ≡ some leased_job
unfolding program
leased_stored = refl

result_payload-delivered_example :
    (doc : Fields ℕ) × (inner : Fields ℕ) × (job_status "j1"
        (result w2 (some "n") posted_body leased).0
      ≡ send 200 doc)
    × (read_result listing "j1" ("key", "key") doc ≡ returned ("answer", some inner, true))
result_payload-delivered_example =
    result_payload-delivered listing helpful w2 worker job 0 1 (7 ∷ []) (str "answer") posted_body
      posted_receipt "sig" "key" leased_job leased (result w2 (some "n") posted_body leased).0
      box_pair sign_pair worker-IsListed refl answer_made postable leased-Inv leased-IsFresh
      leased_stored refl refl start

-- A coordinator that has the answer, and a client that has the keys.
abbrev ready : Net ℕ ℕ
ready = record helpful { answer = λ s call. (suc s, answered (200, 12 ∷ [])) }

abbrev keyed_client : GridClient ℕ
keyed_client = record plain_client { reply_keys = ("j1", ("key", "key")) ∷ [] }

reads :
    result_with_receipt listing ready 1 keyed_client 0 "j1" 30
    ≡ (1, some (returned ("answer", some small_receipt, true)))
unfolding client_side work result_with_receipt read_result unsealed text_of receipt_part
reads = refl

result_with_receipt-Trusted_example :
    (pair : String × String) × (get keyed_client.reply_keys "j1" ≡ some pair)
    × (v : ℕ) × (doc : Fields ℕ) × Polled ready keyed_client v 1 "j1" doc
    × Trusted listing "j1" pair doc "answer" small_receipt
result_with_receipt-Trusted_example =
    result_with_receipt-Trusted listing ready 1 keyed_client 0 1 "j1" 30 "answer" small_receipt
      reads
