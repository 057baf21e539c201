-- ===== src/Tests/Grid.antt =====
-- A node registers, a job is submitted, pulled and answered; and the gate.
mod Lifecycle
mod Cards
mod Nodes
mod Receipts
mod Runs
mod Members
mod Work
mod Waiting
mod JobFile
mod Delivery
mod Carded
mod Files
mod Echo
use nycc_grid.Tests.Toy.{toy_platform, toy_runtime}
use nycc_grid.Base.{ℕ, ◌*◌, String, ◌≡◌, refl, none, [], ◌∷◌, string_eq, pair_eq, nat_eq}
use nycc_grid.Coordinator.State.{
  Coordinator, init, World, envelope, queued_count, touch, alive, float_or, send,
}
use nycc_grid.Coordinator.Headers.{Request, headers_dict, header_of, member_headers, member_message}
use nycc_grid.Coordinator.Routes.{
  content_length, read_body, json_body, gated_create, do_post, do_get,
}
use nycc_grid.Node.{measure, measure_watts, build_receipt}
use nycc_grid.Client.{
  page_path, records, page_of, find_node, key_of_record, node_pages, nodes, checked_receipt,
  verify_receipt,
}
use nycc_grid.Coordinator.Listing.{insert_key, sort_keys, lookup_all, ordered_after, next_cursor}
use nycc_grid.Node.Calls
use nycc_grid.Node.Calls.{parse_json, http, http_signed, coord, beaten, envelopes, pulled}
use nycc_grid.Base.Dict.{get, put}
use nycc_grid.Coordinator.Result.{post_result, job_status, posted_receipt, result}
use nycc_grid.Coordinator.Invariant.Reach.{Reach, get_request, post_request, start, after}
use nycc_grid.Json.{fields, str}
use nycc_grid.Coordinator.Nodes.{
  declared_source, declared_neighborhood, registered_node, register, heartbeat,
}
use nycc_grid.Coordinator.Submit.{job_request, idem_key_of, enqueue, create_job}
use nycc_grid.Coordinator.Pull.{
  insert_by_seq, sort_by_seq, pull_action, visit, pull_loop, pull_jobs, pull,
}
use nycc_grid.Coordinator.Gate.{
  gate_card, gate_skew, gate_signature, gate_checks, gate_nonce, member_gate,
}
use nycc_grid.Club.{matches_issued, card_bytes, check_fields, check_card, issue, decode_card_header}
use nycc_grid.Crypto.{sign, verify, request_signature, signed_headers, canonical_json}

pub program : Unit {0}
unfolding get put headers_dict header_of member_headers content_length read_body json_body
    gated_create do_post do_get register heartbeat result create_job pull job_request idem_key_of
    enqueue queued_count pull_jobs pull_loop visit pull_action sort_by_seq insert_by_seq envelope
    touch post_result posted_receipt job_status declared_source declared_neighborhood
    registered_node float_or member_gate gate_checks gate_card gate_signature gate_skew gate_nonce
    member_message measure_watts measure Calls.heartbeat Calls.pull Calls.register beaten pulled
    envelopes coord http_signed http parse_json signed_headers request_signature next_cursor
    ordered_after lookup_all sort_keys insert_key issue sign build_receipt nodes node_pages
    page_path page_of records find_node key_of_record verify_receipt checked_receipt check_card
    check_fields matches_issued decode_card_header verify card_bytes canonical_json init alive
program = tt

abbrev pub world : ℕ → String → World ℕ
world n uuid = record { time = n; gate_time = n; now_ms = 1000 * n; uuid = uuid }

abbrev pub post : String → ℕ → Request
post path n = record {
  target = path;
  headers = ("Content-Length", "1") ∷ ("X-NYCC-Node-Id", "n") ∷ [];
  stream = n ∷ [];
}

abbrev pub start0 : Coordinator ℕ
start0 = init none

abbrev pub w1 : World ℕ
w1 = world 1 "j1"

abbrev pub w2 : World ℕ
w2 = world 2 "j2"

abbrev pub registered : Coordinator ℕ
registered = (do_post w1 (post "/v1/nodes/register" 1) start0).0

abbrev pub submitted : Coordinator ℕ
submitted = (do_post w1 (post "/v1/jobs" 2) registered).0

abbrev pub leased : Coordinator ℕ
leased = (do_get w2 (post "/v1/jobs/pull" 0) submitted).0

abbrev pub answered : Coordinator ℕ
answered = (do_post w2 (post "/v1/jobs/result" 3) leased).0

run_status :
    job_status "j1" answered
    ≡ send 200 (fields (("status", str "done") ∷ ("blob_b64", str "answer") ∷ []))
unfolding program
run_status = refl

run_counts : (answered.jobs_done ≡ 1) × (answered.seq ≡ 1)
unfolding program
run_counts = (refl, refl)

pub run_Reach : Reach start0 answered
unfolding program
run_Reach =
    after
      (after
        (after (after start (post_request w1 (post "/v1/nodes/register" 1) refl))
          (post_request w1 (post "/v1/jobs" 2) refl))
        (get_request w2 (post "/v1/jobs/pull" 0) refl))
      (post_request w2 (post "/v1/jobs/result" 3) refl)
