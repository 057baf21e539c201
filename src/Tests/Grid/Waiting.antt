-- ===== src/Tests/Grid/Waiting.antt =====
-- The theorems on the client's choice, its keys and its wait, on a job that stays in the queue.
use nycc_grid.Tests.Toy.{card_document, club_fields, toy_platform, toy_runtime}
use nycc_grid.Tests.Grid.{program}
use nycc_grid.Base.{
  if◌then◌else◌, is_some, ◌==◌, ℕ, suc, ◌<◌, String, ◌≡◌, refl, ◌⊎◌, true, false, Option, none,
  some, [], ◌∷◌, arith, string_eq, pair_eq, nat_eq,
}
use nycc_grid.Base.Int.{pos}
use nycc_grid.Json.{Fields, fields, bool, float, str, arr, obj, nil, cons}
use nycc_grid.Net.{Net, answered}
use nycc_grid.Crypto.{member_signed_headers}
use nycc_grid.Crypto.Box.{keygen, seal}
use nycc_grid.Client.Setup.{
  GridClient, Files, checked_sign_key, checked_card, load_card, sign_field, keyfile_key,
  load_member_sign_key, new_client,
}
use nycc_grid.Client.Setup.Paired.{Carded, Plain, new_client-paired}
use nycc_grid.Client.Calls.{
  document_of, reply_document, request_of, call, status, timeout_error, returned, raised,
}
use nycc_grid.Client.Choice.{as_float, node_key, key_ltb, keyed, least_from, pick_node, node_record}
use nycc_grid.Client.Choice.Least.{IsKeyOrder, Picked, pick_node-Picked}
use nycc_grid.Client.Submit.{
  keep_reply_key, reply_key, submission, filed_reply, send_submission, submit,
}
use nycc_grid.Client.Submit.Keys.{KeysAfter, submit-KeysAfter}
use nycc_grid.Client.Wait.{round_of, poll, await_until, await_done}
use nycc_grid.Client.Wait.Ends.{
  Verdict, await_until-Verdict, time_left, IsNearing, await_until_ends,
}

unfoldable pub client_side : Unit {0}
unfolding program keygen as_float node_key key_ltb keyed least_from pick_node node_record submission
    keep_reply_key reply_key filed_reply send_submission submit document_of reply_document
    request_of call status round_of poll await_until await_done checked_card load_card
    checked_sign_key sign_field keyfile_key load_member_sign_key new_client seal
    member_signed_headers
client_side = tt

-- A coordinator that keeps the job waiting; each call and each pause takes a second.
abbrev slow : Net ℕ ℕ
slow = record {
  answer = λ s call. (suc s, answered (200, 9 ∷ []));
  seconds = λ s. "1";
  nonce = λ s. "fresh";
  monotonic = λ s. s;
  iso_now = λ s. "now";
  entropy = λ s k. [];
  sleep = λ x s. suc s;
  meter = λ s. none;
}

abbrev pub plain_client : GridClient ℕ
plain_client = record {
  coordinator_url = "http://grid";
  timeout = 10;
  reply_keys = [];
  card_doc = none;
  member_sign_b64 = none;
  card_header = none;
}

slow_nears : IsNearing slow (λ n. n) plain_client "j1" 5
unfolding client_side
slow_nears t h = ground (arith, h)

first_poll : time_left slow plain_client 0 "j1" 5 < 5
unfolding client_side
first_poll = omega arith

await_until_ends_example :
    (is_some (await_until slow 5 plain_client 0 "j1" 5).1 ≡ true)
    × (await_until slow 8 plain_client 0 "j1" 5 ≡ await_until slow 5 plain_client 0 "j1" 5)
await_until_ends_example =
    await_until_ends slow (λ n. n) 5 8 plain_client 0 "j1" 5 slow_nears first_poll (omega arith)

waited : await_until slow 5 plain_client 0 "j1" 5 ≡ (5, some (raised (timeout_error "j1")))
unfolding client_side
waited = refl

await_until-Verdict_example :
    (v : ℕ) × Verdict slow plain_client v 5 "j1" 5 (raised (timeout_error "j1"))
await_until-Verdict_example =
    await_until-Verdict slow 5 plain_client 0 5 "j1" 5 (raised (timeout_error "j1")) waited

toy_order : IsKeyOrder ℕ
unfolding client_side
toy_order = record {
  irreflexive = λ k. ground arith;
  transitive = λ j k l h g. ground (arith, h, g);
}

abbrev near : Fields ℕ
near = fields (
    ("node_id", str "n")
    ∷ ("wattage", float 65)
    ∷ ("alive", bool true)
    ∷ ("pubkey", str "key")
    ∷ [])

abbrev far : Fields ℕ
far = fields (("node_id", str "m") ∷ ("wattage", float 90) ∷ ("alive", bool true) ∷ [])

abbrev gone : Fields ℕ
gone = fields (("node_id", str "l") ∷ ("wattage", float 5) ∷ ("alive", bool false) ∷ [])

picks : pick_node (far ∷ gone ∷ near ∷ []) ≡ some near
unfolding client_side
picks = refl

pick_node-Picked_example : Picked near (far ∷ gone ∷ near ∷ [])
pick_node-Picked_example = pick_node-Picked near (far ∷ gone ∷ near ∷ []) toy_order picks

abbrev pub one_node : ℕ → String → Option (Fields ℕ)
one_node k path = some (fields (("nodes", arr (cons (obj near) nil)) ∷ []))

-- A coordinator that names the job "j1".
abbrev pub naming : Net ℕ ℕ
naming = record slow { answer = λ s call. (suc s, answered (200, 3 ∷ [])) }

submits : (submit one_node naming plain_client 0 "hi" none (pos 64) 0 none).2 ≡ returned "j1"
unfolding client_side
submits = refl

submit-KeysAfter_example :
    KeysAfter
      (keygen [])
      plain_client
      (submit one_node naming plain_client 0 "hi" none (pos 64) 0 none).0
      (submit one_node naming plain_client 0 "hi" none (pos 64) 0 none).2
submit-KeysAfter_example = submit-KeysAfter one_node naming plain_client 0 "hi" none (pos 64) 0 none

abbrev home : Files ℕ
home = record {
  environ = λ name. none;
  read_json = λ path. some (if path == "card.json" then obj card_document else obj club_fields);
}

abbrev card_client : GridClient ℕ
card_client = record {
  coordinator_url = "http://grid";
  timeout = 10;
  reply_keys = [];
  card_doc = some card_document;
  member_sign_b64 = some "key";
  card_header = some "sig";
}

constructed :
    new_client home "http://grid" 10 (some "card.json") (some "member.json") ≡ some card_client
unfolding client_side
constructed = refl

new_client-paired_example : (Carded card_client ⊎ Plain card_client) × (card_client.reply_keys ≡ [])
new_client-paired_example =
    new_client-paired home "http://grid" 10 (some "card.json") (some "member.json") card_client
      constructed
