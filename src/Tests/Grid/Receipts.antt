-- ===== src/Tests/Grid/Receipts.antt =====
-- The theorems on receipts, at a receipt of the node "n".
use nycc_grid.Tests.Toy.{toy_platform, toy_runtime}
use nycc_grid.Tests.Grid.{program}
use nycc_grid.Base.{ℕ, String, ◌≡◌, refl, true, Option, some, [], ◌∷◌}
use nycc_grid.Base.Int.{pos}
use nycc_grid.Json.{Fields, fields, str, arr, obj, nil, cons}
use nycc_grid.Crypto.{sign, verify, canonical_json}
use nycc_grid.Crypto.Wire.{round_trip_fields}
use nycc_grid.Node.{Agent, receipt_fields, build_receipt}
use nycc_grid.Client.{find_node, key_of_record, nodes, verify_receipt}
use nycc_grid.Client.Receipts.{Attested, verify_receipt-Attested, verify_receipt-build_receipt}

abbrev pub agent : Agent ℕ
agent = record {
  coordinator_url = "http://grid";
  engine_url = "http://engine";
  node_id = "n";
  box_pub_b64 = "p";
  box_prv_b64 = "q";
  verify_b64 = "key";
  sign_b64 = "key";
  claimed_wattage = 65;
  neighborhood = "harlem";
  wattage = 65;
  watts_source = "claimed";
  registered = true;
  last_heartbeat = 0;
}

abbrev listed_node : Fields ℕ
listed_node = fields (("node_id", str "n") ∷ ("verify_key", str "key") ∷ [])

abbrev one_page : ℕ → String → Option (Fields ℕ)
one_page k path = some (fields (("nodes", arr (cons (obj listed_node) nil)) ∷ []))

abbrev receipt_of_agent : Fields ℕ
receipt_of_agent = receipt_fields agent "j1" "start" "end" (pos 12) [] (1 ∷ [])

abbrev signed_receipt : Fields ℕ
signed_receipt = fields (("receipt", obj receipt_of_agent) ∷ ("sig", str "sig") ∷ [])

receipt_built : build_receipt agent "j1" "start" "end" (pos 12) [] (1 ∷ []) ≡ some signed_receipt
unfolding program
receipt_built = refl

receipt_signed : sign "key" (canonical_json (obj receipt_of_agent)) ≡ some (7 ∷ [])
unfolding program
receipt_signed = refl

receipt_verified : verify "key" (canonical_json (obj receipt_of_agent)) (7 ∷ []) ≡ true
unfolding program
receipt_verified = refl

receipt_walk : nodes one_page (pos 50) ≡ some (listed_node ∷ [])
unfolding program
receipt_walk = refl

receipt_node : find_node (str "n") (listed_node ∷ []) ≡ some listed_node
unfolding program
receipt_node = refl

receipt_key : key_of_record listed_node ≡ "key"
unfolding program
receipt_key = refl

verify_receipt-build_receipt_example :
    verify_receipt one_page "j1" (round_trip_fields signed_receipt) (1 ∷ []) ≡ true
verify_receipt-build_receipt_example =
    verify_receipt-build_receipt one_page agent "j1" "start" "end" (pos 12) [] (1 ∷ []) (7 ∷ [])
      signed_receipt listed_node (listed_node ∷ []) receipt_built receipt_signed receipt_verified
      refl receipt_walk receipt_node receipt_key

verify_receipt-Attested_example : Attested one_page "j1" (round_trip_fields signed_receipt) (1 ∷ [])
verify_receipt-Attested_example =
    verify_receipt-Attested one_page "j1" (round_trip_fields signed_receipt) (1 ∷ [])
      verify_receipt-build_receipt_example
