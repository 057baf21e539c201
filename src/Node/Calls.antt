-- ===== src/Node/Calls.antt =====
-- The calls of NodeAgent in pygrid/node.py to its coordinator: `_http`, `register`, `heartbeat`,
-- `pull`, over a network whose state is a parameter.
use nycc_grid.Base.{
  nat_beq, if◌then◌else◌, ℕ, String, Bool, true, false, not, ◌||◌, Option, none, some, List, [],
  ◌∷◌, ◌++◌,
}
use nycc_grid.Json.{Items, Fields, get_field, fields, as_obj, float, str, arr, obj, nil, cons, end}
use nycc_grid.Runtime.{Bytes, Platform, Runtime, truthy}
use nycc_grid.Text.{◌>>=◌}
use nycc_grid.Crypto.{◌+++◌, signed_headers}
use nycc_grid.Protocol.{JobEnvelope, JobEnvelope_from_dict}
use nycc_grid.Net.{Net, answered}
use nycc_grid.Node.{Agent, measure_watts}

-- `HTTP_TIMEOUT_S`
abbrev pub http_timeout_s : ℕ
http_timeout_s = 60

module _ {F S : Type 0} ⦃pl : Platform⦄ ⦃rt : Runtime F⦄ (net : Net F S) where
  -- `_parse_json`
  unfoldable pub parse_json : Bytes → Fields F
  parse_json [] = end
  parse_json (b ∷ raw) = elim (rt.loads (b ∷ raw)) [ some (obj d) ↦ d | _ ↦ end ]

  abbrev pub content_type : Bytes → List (String × String)
  content_type [] = []
  content_type (b ∷ body) = ("Content-Type", "application/json") ∷ []

  -- `_http`, with the headers of the signature, if there is one. None is an exception of the network.
  unfoldable pub http :
      S → String → String → Bytes → List (String × String) → S × Option (ℕ × Fields F)
  http s url method body signed =
      let (t, reply) = net.answer s (record {
        timeout = rt.literal http_timeout_s;
        url = url;
        method = pl.upper method;
        body = body;
        headers =
            ("Accept", "application/json")
            ∷ ("User-Agent", "nycc-node/0.1")
            ∷ (content_type body ++ signed);
      }) in
      (t, elim reply [ answered (status, raw) ↦ some (status, parse_json raw) | _ ↦ none ])

  -- `_http` of a signed call; none is also the exception of the signature.
  unfoldable pub http_signed : Agent F → S → String → String → Bytes → S × Option (ℕ × Fields F)
  http_signed a s url method body =
      elim (signed_headers a.node_id a.sign_b64 url method body (net.seconds s) (net.nonce s)) [
        | none ↦ (s, none)
        | some signed ↦ http s url method body signed
      ]

  -- `_coord`
  unfoldable pub coord :
      Agent F → S → String → String → Option (Fields F) → S × Option (ℕ × Fields F)
  coord a s method path payload =
      http_signed a s (a.coordinator_url +++ path) method
        (elim payload [ none ↦ [] | some d ↦ pl.utf8 (rt.dumps (obj d)) ])

  -- The agent and the outside after a call, and what it returned; none is an exception.
  abbrev pub Outcome : Type 0 → Type 0
  Outcome A = Agent F × S × Option A

  unfoldable pub register : Agent F → S → Outcome (Unit {0})
  register a s =
      let (t, reply) = coord a s "POST" "/v1/nodes/register" (
        some (
          fields (
            ("node_id", str a.node_id)
            ∷ ("pubkey", str a.box_pub_b64)
            ∷ ("verify_key", str a.verify_b64)
            ∷ ("wattage", float a.wattage)
            ∷ ("watts_source", str a.watts_source)
            ∷ ("neighborhood", str a.neighborhood)
            ∷ []))) in
      elim reply [
        | none ↦ (a, t, none)
        | some (status, doc) ↦
            if not (nat_beq status 200 || nat_beq status 201)
            then (a, t, none)
            else (record a { registered = true; last_heartbeat = net.monotonic t }, t, some tt)
      ]

  -- The answer of `register` in place of a value.
  abbrev pub then_return : {A : Type 0} → A → Outcome (Unit {0}) → Outcome A
  then_return v (a, s, none) = (a, s, none)
  then_return v (a, s, some _) = (a, s, some v)

  -- What `heartbeat` does with the reply.
  unfoldable pub beaten : Agent F → S → ℕ → Outcome Bool
  beaten a s status =
      if nat_beq status 404
      then then_return false (register (record a { registered = false }) s)
      else if not (nat_beq status 200)
      then (a, s, none)
      else (a, s, some true)

  abbrev pub beat_call : Agent F → S → S × Option (ℕ × Fields F)
  beat_call a s = coord a s "POST" "/v1/nodes/heartbeat" (
      some (
        fields (
          ("node_id", str a.node_id)
          ∷ ("wattage", float a.wattage)
          ∷ ("watts_source", str a.watts_source)
          ∷ [])))

  unfoldable pub heartbeat : Agent F → S → Outcome Bool
  heartbeat before s =
      let a = measure_watts (net.meter s) before in
      let (t, reply) = beat_call a s in
      elim reply [
        | none ↦ (a, t, none)
        | some (status, doc) ↦ beaten (record a { last_heartbeat = net.monotonic t }) t status
      ]

  -- `[JobEnvelope.from_dict(j) for j in jobs]`
  unfoldable pub envelopes : Items F → Option (List JobEnvelope)
  envelopes nil = some []
  envelopes (cons j js) = do
    d ← as_obj j
    env ← JobEnvelope_from_dict d
    rest ← envelopes js
    some (env ∷ rest)

  -- The return of `pull`; what is no list has no envelopes in it, and raises.
  unfoldable pub pulled : ℕ → Fields F → Option (List JobEnvelope)
  pulled status doc =
      if not (nat_beq status 200)
      then none
      else if not (truthy (get_field doc "jobs"))
      then some []
      else elim (get_field doc "jobs") [ arr js ↦ envelopes js | _ ↦ none ]

  abbrev pull_path : Agent F → String
  pull_path a = "/v1/jobs/pull?node_id=" +++ pl.quote a.node_id

  abbrev pub pull_call : Agent F → S → S × Option (ℕ × Fields F)
  pull_call a s = coord a s "GET" (pull_path a) none

  abbrev pub pull_again : Outcome (Unit {0}) → Outcome (List JobEnvelope)
  pull_again (a, s, none) = (a, s, none)
  pull_again (a, s, some _) =
      let (t, reply) = pull_call a s in
      elim reply [ none ↦ (a, t, none) | some (status, doc) ↦ (a, t, pulled status doc) ]

  unfoldable pub pull : Agent F → S → Outcome (List JobEnvelope)
  pull a s =
      let (t, reply) = pull_call a s in
      elim reply [
        | none ↦ (a, t, none)
        | some (status, doc) ↦
            if nat_beq status 404
            then pull_again (register (record a { registered = false }) t)
            else (a, t, pulled status doc)
      ]
