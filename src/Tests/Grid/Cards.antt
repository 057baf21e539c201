-- ===== src/Tests/Grid/Cards.antt =====
-- The theorems on documents, at a card of the key "key" and at the records of one node and job.
use nycc_grid.Tests.Toy.{node_sorted, envelope_sorted, toy_runtime, toy_platform}
use nycc_grid.Tests.Grid.{program}
use nycc_grid.Base.{ℕ, ◌≡◌, refl, inl, inr, true, none, some, [], ◌∷◌, arith}
use nycc_grid.Json.{Json, Fields, fields, items, int, float, str, arr, obj}
use nycc_grid.Club.{issued_ok, issued_card, card_bytes, check_card, issue}
use nycc_grid.Club.Issue.{check_card-issue}
use nycc_grid.Club.Wire.{check_card-js_round_trip}
use nycc_grid.Crypto.Wire.{js_round_trip}
use nycc_grid.Crypto.Canonical.{canonical_json-js_round_trip}
use nycc_grid.Protocol.Text.{
  readings, envelope_keys, info_keys, NodeInfo_to_json, NodeInfo_from_json,
  NodeInfo_from_json-NodeInfo_to_json, JobEnvelope_to_json, JobEnvelope_from_json,
  JobEnvelope_from_json-JobEnvelope_to_json,
}
use nycc_grid.Crypto.{sign, verify, canonical_json}
use nycc_grid.Base.Int.{pos}
use nycc_grid.Protocol.{NodeInfo, JobEnvelope, NodeInfo_to_dict, JobEnvelope_to_dict, running}

abbrev ada_card : Fields ℕ
ada_card = issued_card "ada" "key" (some "2026-08-19") (some (pos 5)) "" (pos 0)

abbrev ada_document : Fields ℕ
ada_document = fields (("card", obj ada_card) ∷ ("sig", str "sig") ∷ [])

ada_issued :
    issue "key" "ada" "key" (some "2026-08-19") (some (pos 5)) "" (pos 0) ≡ some ada_document
unfolding program
ada_issued = refl

ada_dated : issued_ok "2026-08-19" ≡ true
unfolding program
ada_dated = refl

ada_signed : sign "key" (card_bytes ada_card) ≡ some (7 ∷ [])
unfolding program
ada_signed = refl

ada_verified : verify "key" (card_bytes ada_card) (7 ∷ []) ≡ true
unfolding program
ada_verified = refl

check_card-issue_example : check_card {F = ℕ} "key" (obj ada_document) ≡ none
check_card-issue_example =
    check_card-issue "key" "key" "ada" "key" (some "2026-08-19") (some (pos 5)) "" (pos 0)
      ada_document (7 ∷ []) ada_issued ada_dated (omega arith) ada_signed ada_verified refl refl

-- The document with its numbers as js_round_trip leaves them.
abbrev reparsed : Json ℕ
reparsed = js_round_trip (obj ada_document)

check_card-js_round_trip_example : check_card {F = ℕ} "key" reparsed ≡ none
check_card-js_round_trip_example =
    check_card-js_round_trip "key" ada_document check_card-issue_example

abbrev receipt : Json ℕ
receipt =
    obj
      (fields (("watts", float 65) ∷ ("readings", arr (items (float 64 ∷ int (pos 66) ∷ []))) ∷ []))

canonical_json-js_round_trip_example :
    canonical_json (js_round_trip receipt) ≡ canonical_json receipt
canonical_json-js_round_trip_example = canonical_json-js_round_trip receipt

abbrev node : NodeInfo ℕ
node = record {
  node_id = "n";
  pubkey = "p";
  verify_key = "v";
  wattage = 65;
  last_seen = 0;
  watts_source = "measured";
  neighborhood = "harlem";
}

node_loaded :
    toy_runtime.loads_str (toy_runtime.dumps_canonical (obj (NodeInfo_to_dict node)))
    ≡ some (obj node_sorted)
unfolding program NodeInfo_to_dict
node_loaded = refl

node_read : readings node_sorted info_keys ≡ readings (NodeInfo_to_dict node) info_keys
unfolding program NodeInfo_to_dict
node_read = refl

NodeInfo_from_json-NodeInfo_to_json_example : NodeInfo_from_json (NodeInfo_to_json node) ≡ some node
NodeInfo_from_json-NodeInfo_to_json_example =
    NodeInfo_from_json-NodeInfo_to_json node node_sorted refl refl (inl refl) (inr refl) node_loaded
      node_read

abbrev job : JobEnvelope
job = record {
  job_id = "j1";
  to_node = "n";
  blob_b64 = "sealed";
  reply_pubkey = "r";
  status = running;
}

job_loaded :
    toy_runtime.loads_str (toy_runtime.dumps_canonical (obj (JobEnvelope_to_dict job)))
    ≡ some (obj envelope_sorted)
unfolding program JobEnvelope_to_dict
job_loaded = refl

job_read : readings envelope_sorted envelope_keys ≡ readings (JobEnvelope_to_dict job) envelope_keys
unfolding program JobEnvelope_to_dict
job_read = refl

JobEnvelope_from_json-JobEnvelope_to_json_example :
    JobEnvelope_from_json ℕ (JobEnvelope_to_json ℕ job) ≡ some job
JobEnvelope_from_json-JobEnvelope_to_json_example =
    JobEnvelope_from_json-JobEnvelope_to_json ℕ job envelope_sorted job_loaded job_read
