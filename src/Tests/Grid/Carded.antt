-- ===== src/Tests/Grid/Carded.antt =====
-- The theorem on the submission of a carded client, at the card that the key "key" signed.
use nycc_grid.Tests.Toy.{submit_body, card_document, toy_platform, toy_runtime}
use nycc_grid.Tests.Grid.{program, world}
use nycc_grid.Tests.Grid.Waiting.{client_side}
use nycc_grid.Base.{
  ℕ, ◌≡◌, refl, true, false, none, some, [], ◌∷◌, arith, string_eq, pair_eq, nat_eq,
}
use nycc_grid.Base.Int.{pos}
use nycc_grid.Base.Dict.{has}
use nycc_grid.Net.{Call}
use nycc_grid.Crypto.Pairs.{IsSignPair}
use nycc_grid.Client.Setup.{GridClient}
use nycc_grid.Client.Calls.{request_of}
use nycc_grid.Client.Admitted.{AreApart, arrival}
use nycc_grid.Client.Admitted.Passed.{IsAdmissible, bearer, member_gate-request_of}
use nycc_grid.Coordinator.State.{Coordinator, init, World}
use nycc_grid.Coordinator.Gate.{member_gate}
use nycc_grid.Text.{codes}

pub sign_pair : IsSignPair "key" "key"
unfolding program
sign_pair = record {
  accepts = λ message sig e. ground (arith, e);
  survives = λ message sig e. e;
  some_text = λ message sig e. refl;
}

abbrev bearer_client : GridClient ℕ
bearer_client = record {
  coordinator_url = "http://grid";
  timeout = 10;
  reply_keys = [];
  card_doc = some card_document;
  member_sign_b64 = some "key";
  card_header = some "card";
}

abbrev guarded : Coordinator ℕ
guarded = init (some "key")

abbrev at_hundred : World ℕ
at_hundred = world 100 "j1"

admissible : IsAdmissible at_hundred.gate_time guarded.club_verify_key "card" "key" "100" "fresh"
unfolding program
admissible = record {
  doc = card_document;
  decodes = refl;
  by_club = refl;
  pair = sign_pair;
  some_card = refl;
  some_seconds = refl;
  some_nonce = refl;
  ts = pos 100;
  reads = refl;
  t = 100;
  floats = refl;
  in_window = refl;
}

apart : AreApart
apart = record {
  card_ts = refl;
  card_nonce = refl;
  card_sig = refl;
  ts_nonce = refl;
  ts_sig = refl;
  nonce_sig = refl;
}

abbrev sent : Call ℕ
sent = record {
  timeout = 10;
  url = "http://grid/v1/jobs";
  method = "POST";
  body = codes "json";
  headers =
      ("Accept", "application/json")
      ∷ ("User-Agent", "nycc-client/0.1")
      ∷ ("Content-Type", "application/json")
      ∷ ("X-NYCC-Card", "card")
      ∷ ("X-NYCC-Member-Ts", "100")
      ∷ ("X-NYCC-Member-Nonce", "fresh")
      ∷ ("X-NYCC-Member-Sig", "sig")
      ∷ [];
}

sends : request_of bearer_client "POST" "/v1/jobs" (some submit_body) true "100" "fresh" ≡ some sent
unfolding client_side
sends = refl

unused : has guarded.member_nonces ((bearer admissible.doc).key, "fresh") ≡ false
unfolding program
unused = refl

member_gate-request_of_example :
    (member_gate at_hundred (arrival (("Content-Length", "4") ∷ []) sent) sent.body guarded).1
    ≡ none
member_gate-request_of_example =
    member_gate-request_of bearer_client submit_body "card" "key" "100" "fresh" sent
      (("Content-Length", "4") ∷ []) at_hundred guarded admissible apart refl refl refl sends unused
