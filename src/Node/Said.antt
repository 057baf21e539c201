-- ===== src/Node/Said.antt =====
-- What the calls of NodeAgent in pygrid/node.py that return have got from the other side.
use nycc_grid.Base.{
  Option-cases, ℕ, String, ◌≡◌, ◌⊎◌, inl, inr, true, Option, none, some, List, [], ◌∷◌, ◌++◌, arith,
}
use nycc_grid.Json.{Fields, fields, float, str, obj}
use nycc_grid.Runtime.{Bytes, Platform, Runtime}
use nycc_grid.Crypto.{◌+++◌, signed_headers}
use nycc_grid.Net.{Call, Answer-cases, Net, answered}
use nycc_grid.Node.{Agent}
use nycc_grid.Node.Calls.{parse_json, content_type, http, http_signed, coord, register}

module _ {F S : Type 0} ⦃pl : Platform⦄ ⦃rt : Runtime F⦄ (net : Net F S) where
  -- A request of the agent, as it goes out.
  abbrev pub outgoing : String → String → Bytes → List (String × String) → Call F
  outgoing url method body signed = record {
    timeout = rt.literal 60;
    url = url;
    method = pl.upper method;
    body = body;
    headers =
        ("Accept", "application/json")
        ∷ ("User-Agent", "nycc-node/0.1")
        ∷ (content_type net body ++ signed);
  }

  -- From the state `s` to the state `t`, the request was answered with this status and a body that
  -- reads as this document.
  pub record Replied (s t : S) (url method : String) (body : Bytes)
      (signed : List (String × String)) (status : ℕ) (doc : Fields F) : Type 0 where
    pub raw : Bytes
    pub said : net.answer s (outgoing url method body signed) ≡ (t, answered (status, raw))
    pub read : doc ≡ parse_json net raw

  pub http-Replied :
      (s t : S) (url method : String) (body : Bytes) (signed : List (String × String)) (status : ℕ)
      (doc : Fields F)
      → http net s url method body signed ≡ (t, some (status, doc))
      → Replied s t url method body signed status doc
  unfolding http
  http-Replied s t url method body signed status doc h =
      elim (Answer-cases (net.answer s (outgoing url method body signed)).1) [
        | inl ((code, raw), e) ↦ record {
          raw = raw;
          said = ground (arith, e, h);
          read = ground (arith, e, h);
        }
        | inr (inl e) ↦ absurd (ground (arith, e, h))
        | inr (inr e) ↦ absurd (ground (arith, e, h))
      ]

  -- The host answered a call signed by the node of this id with this key.
  pub record SaidTo (node_id sign_b64 host : String) (s t : S) (method path : String) (body : Bytes)
      (status : ℕ) (doc : Fields F) : Type 0 where
    pub signed : List (String × String)
    pub signed_as :
        signed_headers node_id sign_b64 (host +++ path) method body (net.seconds s) (net.nonce s)
        ≡ some signed
    pub replied : Replied s t (host +++ path) method body signed status doc

  -- The coordinator of the agent answered a call that the agent signed.
  abbrev pub Said : Agent F → S → S → String → String → Bytes → ℕ → Fields F → Type 0
  Said a s t method path body status doc =
      SaidTo a.node_id a.sign_b64 a.coordinator_url s t method path body status doc

  -- The bytes of a payload.
  abbrev pub bytes_of : Option (Fields F) → Bytes
  bytes_of payload = elim payload [ none ↦ [] | some d ↦ pl.utf8 (rt.dumps (obj d)) ]

  pub coord-Said :
      (a : Agent F) (s t : S) (method path : String) (payload : Option (Fields F)) (status : ℕ)
      (doc : Fields F)
      → coord net a s method path payload ≡ (t, some (status, doc))
      → Said a s t method path (bytes_of payload) status doc
  unfolding coord http_signed
  coord-Said a s t method path payload status doc h =
      let url = a.coordinator_url +++ path in
      let body = bytes_of payload in
      elim (Option-cases
        (signed_headers a.node_id a.sign_b64 url method body (net.seconds s) (net.nonce s))) [
          | inl e ↦ absurd (ground (arith, e, h))
          | inr (signed, e) ↦ record {
            signed = signed;
            signed_as = e;
            replied = http-Replied s t url method body signed status doc (ground (arith, e, h));
          }
        ]

  -- The keys and claims of an agent, as it registers them.
  abbrev pub registration : Agent F → Fields F
  registration a = fields (
      ("node_id", str a.node_id)
      ∷ ("pubkey", str a.box_pub_b64)
      ∷ ("verify_key", str a.verify_b64)
      ∷ ("wattage", float a.wattage)
      ∷ ("watts_source", str a.watts_source)
      ∷ ("neighborhood", str a.neighborhood)
      ∷ [])

  -- The coordinator accepted a registration of the agent, with 200 or 201.
  abbrev pub Accepted : Agent F → S → S → Type 0
  Accepted a s t =
      (status : ℕ) × (doc : Fields F) × Said a s t "POST" "/v1/nodes/register"
        (bytes_of (some (registration a))) status doc
      × ((status ≡ 200) ⊎ (status ≡ 201))

  pub register-Accepted :
      (a b : Agent F) (s t : S)
      → register net a s ≡ (b, t, some tt)
      → Accepted a s t × (b ≡ record a { registered = true; last_heartbeat = net.monotonic t })
  unfolding register
  register-Accepted a b s t h =
      let answer = coord net a s "POST" "/v1/nodes/register" (some (registration a)) in
      elim (Option-cases answer.1) [
        | inl e ↦ absurd (ground (arith, e, h))
        | inr ((status, doc), e) ↦
            let told : answer ≡ (t, some (status, doc)) = ground (arith, e, h) in
            (
              (
                status,
                doc,
                coord-Said a s t "POST" "/v1/nodes/register" (some (registration a)) status doc
                    told,
                ground (arith, e, h),
              ),
              ground (arith, e, h),
            )
      ]
