-- ===== src/Tests/Grid/Members.antt =====
-- The theorems on cards and on the gate, at a card that the key "key" signed.
use nycc_grid.Tests.Toy.{register_body, submit_body, toy_platform, toy_runtime}
use nycc_grid.Tests.Grid.{program, world}
use nycc_grid.Base.{ℕ, ◌≡◌, refl, true, none, some, [], ◌∷◌, string_eq, pair_eq, nat_eq}
use nycc_grid.Json.{nonempty}
use nycc_grid.Coordinator.State.{Coordinator, init, Reply, World}
use nycc_grid.Coordinator.Gate.{deny, Member, gate_checks, member_gate, accepts}
use nycc_grid.Coordinator.Runs.Replays.{member_gate_once}
use nycc_grid.Base.Dict.{get}
use nycc_grid.Coordinator.Gate.Replay.{member_gate_denied}
use nycc_grid.Club.{err_member_sig_replay}
use nycc_grid.Coordinator.Gate.Admission.{Evidence, gate_checks-Evidence}
use nycc_grid.Coordinator.Headers.{Request, headers_dict, MemberHeaders}
use nycc_grid.Coordinator.Invariant.{IsFresh}
use nycc_grid.Coordinator.Invariant.Reach.{create_part, start, after}
use nycc_grid.Coordinator.Nodes.{register}
use nycc_grid.Coordinator.Submit.{new_job, create_job}
use nycc_grid.Coordinator.Routes.{gated_create}

abbrev gated : Coordinator ℕ
gated = (register (world 100 "j0") register_body (init (some "key"))).0

abbrev carded : Request
carded = record {
  target = "/v1/jobs";
  headers =
      ("Content-Length", "1")
      ∷ ("X-NYCC-Card", "card")
      ∷ ("X-NYCC-Member-Ts", "100")
      ∷ ("X-NYCC-Member-Nonce", "fresh")
      ∷ ("X-NYCC-Member-Sig", "sig")
      ∷ ("Host", "grid")
      ∷ [];
  stream = 2 ∷ [];
}

abbrev w100 : World ℕ
w100 = world 100 "j1"

abbrev ada : Member
ada = record { key = "key"; name = "ada" }

abbrev ada_headers : MemberHeaders
ada_headers = record { ts = "100"; nonce = "fresh"; sig_b64 = "sig" }

lowered_example : get (headers_dict [] carded.headers) "X-NYCC-Card" ≡ some "card"
unfolding program
lowered_example = refl

admitted : gate_checks {F = ℕ} 100 carded (2 ∷ []) "key" ≡ accepts (ada, ada_headers)
unfolding program
admitted = refl

gate_checks-Evidence_example : Evidence {F = ℕ} 100 carded (2 ∷ []) "key" ada ada_headers
gate_checks-Evidence_example =
    gate_checks-Evidence 100 carded (2 ∷ []) "key" ada ada_headers admitted

opened : (member_gate w100 carded (2 ∷ []) gated).1 ≡ none
unfolding program
opened = refl

gated_key : nonempty gated.club_verify_key ≡ true
unfolding program
gated_key = refl

abbrev after_gate : Coordinator ℕ
after_gate = (member_gate w100 carded (2 ∷ []) gated).0

-- The job of the submission that was let through is there.
abbrev filed : Coordinator ℕ
filed = (create_job w100 submit_body after_gate).0

filed_job : get filed.jobs "j1" ≡ some (new_job w100 ("n", "sealed", "r") 1)
unfolding program
filed_job = refl

after_gate-IsFresh : IsFresh w100 after_gate
unfolding program
after_gate-IsFresh = refl

member_gate_once_example :
    (r : Reply ℕ) × (member_gate w100 carded (2 ∷ []) filed ≡ (filed, some r))
    × (gated_create w100 carded submit_body (2 ∷ []) filed ≡ (filed, r))
member_gate_once_example =
    member_gate_once w100 w100 carded submit_body (2 ∷ []) gated filed gated_key opened
      (after start (create_part w100 submit_body after_gate-IsFresh))

replayed :
    (member_gate w100 carded (2 ∷ []) after_gate).1
    ≡ some (deny err_member_sig_replay "member nonce already used")
unfolding program
replayed = refl

member_gate_denied_example : (member_gate w100 carded (2 ∷ []) after_gate).0 ≡ after_gate
member_gate_denied_example =
    member_gate_denied w100 carded (2 ∷ []) after_gate
      (deny err_member_sig_replay "member nonce already used") replayed
