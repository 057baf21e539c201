-- ===== src/Node/Work.antt =====
-- The work of NodeAgent in pygrid/node.py: `_infer`, `process`, `_heartbeat_if_due`, `run_once` and
-- the rounds of `run_forever`.
use nycc_grid.Base.{
  nat_beq, if◌then◌else◌, is_some, ℕ, zero, suc, Bool, not, Option, none, some, List, [], ◌∷◌,
}
use nycc_grid.Net.{Net}
use nycc_grid.Runtime.{Bytes, Platform, Runtime}
use nycc_grid.Node.{Agent, build_receipt}
use nycc_grid.Node.Calls.{http, coord, Outcome, register, heartbeat, pull}
use nycc_grid.Json.{
  Json, Fields, get_field, fields, object, as_obj, int, float, str, arr, obj, cons,
}
use nycc_grid.Base.Int.{ℤ, pos}
use nycc_grid.Protocol.{JobEnvelope}
use nycc_grid.Crypto.Box.{seal, unseal}
use nycc_grid.Text.{◌>>=◌, to_float, to_int, get_or, get_or_else}
use nycc_grid.Crypto.{◌+++◌, b64e, b64d}

abbrev pub default_max_tokens : ℕ
default_max_tokens = 16

module _ {F : Type 0} ⦃pl : Platform⦄ ⦃rt : Runtime F⦄ where
  -- The body of the call to the engine; none where `payload` is no dict or a conversion raises.
  unfoldable pub infer_body : Json F → Option Bytes
  infer_body value = do
    payload ← as_obj value
    tokens ← to_int (get_or_else payload "max_tokens" (int (pos default_max_tokens)))
    temperature ← to_float (get_or_else payload "temperature" (float rt.zero))
    some (
        pl.utf8 (
          rt.dumps (
            object (
              ("prompt", get_or payload "prompt" (str ""))
              ∷ ("max_tokens", int tokens)
              ∷ ("temperature", float temperature)
              ∷ []))))

  -- `choices[0].get("text", "")`; none where there is no choice, or no dict in that place.
  unfoldable pub first_choice : Fields F → Option (Json F)
  first_choice doc = elim (get_field doc "choices") [
    | arr (cons (obj choice) more) ↦ some (get_or choice "text" (str ""))
    | _ ↦ none
  ]

  -- What `_infer` makes of the reply of the engine.
  unfoldable pub inferred : ℕ → Fields F → Option (Json F)
  inferred status doc = if not (nat_beq status 200) then none else first_choice doc

  -- The first lines of `process`: the sealed request and the payload inside.
  unfoldable pub opened : Agent F → JobEnvelope → Option (Bytes × Json F)
  opened a env = do
    request_raw ← b64d env.blob_b64
    plain ← unseal a.box_prv_b64 a.box_pub_b64 request_raw
    payload ← rt.loads plain
    some (request_raw, payload)

module _ {F S : Type 0} ⦃pl : Platform⦄ ⦃rt : Runtime F⦄ (net : Net F S) where
  -- `_infer`; none is an exception.
  unfoldable pub infer : Agent F → S → Json F → S × Option (Json F)
  infer a s payload = elim (infer_body payload) [
    | none ↦ (s, none)
    | some body ↦
        let (t, reply) = http net s (a.engine_url +++ "/v1/completions") "POST" body [] in
        (t, elim reply [ none ↦ none | some (status, doc) ↦ inferred status doc ])
  ]

  -- `crypto.seal(env.reply_pubkey, json.dumps({"text": text}).encode("utf-8"))`
  unfoldable pub sealed_answer : JobEnvelope → S → Json F → Option Bytes
  sealed_answer env t text =
      seal env.reply_pubkey (net.entropy t 0) (pl.utf8 (rt.dumps (object (("text", text) ∷ []))))

  -- `int(round((time.monotonic() - started_at) * 1000))`
  unfoldable pub duration_of : F → S → Option ℤ
  duration_of started_at t =
      rt.round_int (rt.mul (rt.sub (net.monotonic t) started_at) (rt.literal 1000))

  -- What `process` posts for an answer: started at `s`, finished at `t`.
  unfoldable pub result_payload : Agent F → JobEnvelope → S → S → Bytes → Json F → Option (Fields F)
  result_payload a env s t request_raw text = do
    sealed ← sealed_answer env t text
    duration_ms ← duration_of (net.monotonic s) t
    receipt ←
        build_receipt a env.job_id (net.iso_now s) (net.iso_now t) duration_ms request_raw sealed
    some (
        fields (
          ("job_id", str env.job_id)
          ∷ ("blob_b64", str (b64e sealed))
          ∷ ("receipt", obj receipt)
          ∷ []))

  -- The end of `process`; the post has to be answered by 200.
  unfoldable pub post_answer : Agent F → S → Fields F → S × Option (Unit {0})
  post_answer a t payload =
      let (u, reply) = coord net a t "POST" "/v1/jobs/result" (some payload) in
      (
        u,
        elim reply [
          | none ↦ none
          | some (status, doc) ↦ if nat_beq status 200 then some tt else none
        ],
      )

  -- `process`; none is an exception.
  unfoldable pub process : Agent F → S → JobEnvelope → S × Option (Unit {0})
  process a s env = elim (opened a env) [
    | none ↦ (s, none)
    | some (request_raw, payload) ↦
        let (t, answer) = infer a s payload in
        elim answer [
          | none ↦ (t, none)
          | some text ↦ elim (result_payload a env s t request_raw text) [
            | none ↦ (t, none)
            | some body ↦ post_answer a t body
          ]
        ]
  ]

  -- The loop of `run_once` over the jobs, and the number that were completed.
  unfoldable pub process_all : Agent F → S → List JobEnvelope → S × ℕ
  process_all a s [] = (s, 0)
  process_all a s (env ∷ envs) =
      let (t, outcome) = process a s env in
      let (u, completed) = process_all a t envs in
      (u, if is_some outcome then suc completed else completed)

  -- `self.heartbeat()` with its value dropped
  abbrev pub beat_once : Outcome net Bool → Outcome net (Unit {0})
  beat_once (a, s, none) = (a, s, none)
  beat_once (a, s, some _) = (a, s, some tt)

  -- `_heartbeat_if_due`, with HEARTBEAT_S = 30.0.
  unfoldable pub heartbeat_if_due : Agent F → S → Outcome net (Unit {0})
  heartbeat_if_due a s =
      if rt.le (rt.literal 30) (rt.sub (net.monotonic s) a.last_heartbeat)
      then beat_once (heartbeat net a s)
      else (a, s, some tt)

  abbrev pub register_or_beat : Agent F → S → Outcome net (Unit {0})
  register_or_beat a s = if not a.registered then register net a s else heartbeat_if_due a s

  -- The rest of `run_once`, on what the first step returned.
  abbrev pub pull_and_process : Outcome net (Unit {0}) → Outcome net ℕ
  pull_and_process (a, s, none) = (a, s, none)
  pull_and_process (a, s, some _) =
      let (b, t, pulled_jobs) = pull net a s in
      elim pulled_jobs [
        | none ↦ (b, t, none)
        | some envs ↦ let (u, completed) = process_all b t envs in (b, u, some completed)
      ]

  unfoldable pub run_once : Agent F → S → Outcome net ℕ
  run_once a s = pull_and_process (register_or_beat a s)

  -- The first rounds of `run_forever`: an exception of a round ends in a line on stderr.
  unfoldable pub run_rounds : ℕ → F → Agent F → S → Agent F × S
  run_rounds zero interval a s = (a, s)
  run_rounds (suc n) interval a s =
      let (b, t, completed) = run_once a s in run_rounds n interval b (net.sleep interval t)
