-- ===== src/Client/Calls.antt =====
-- `_call` and `status` of GridClient in pygrid/client.py, over a network whose state is a parameter.
use mathlib.Core.Option
use nycc_grid.Base.{
  ltb, leb, if◌then◌else◌, ℕ, String, ◌≡◌, refl, ◌⊎◌, inl, inr, Bool, false, ◌&&◌, Option, none,
  some, List, [], ◌∷◌, ◌++◌,
}
use nycc_grid.Json.{Fields, nonempty, obj, end}
use nycc_grid.Text.{◌>>=◌}
use nycc_grid.Runtime.{Bytes, Platform, Runtime}
use nycc_grid.Crypto.{◌+++◌, member_signed_headers}
use nycc_grid.Crypto.Header
use nycc_grid.Net.{Call, Answer, Net, answered, unreachable, broken}
use nycc_grid.Client.Setup.{GridClient}

-- The exceptions of the client. The detail text of a CoordinatorError is left out; the kinds of
-- the others are told apart where a caller may wait for them.
pub data Error : Type 0 where
  coordinator_error : ℕ → String → Error
  job_failed : String → Error
  timeout_error : String → Error
  key_error : String → Error
  other_error : Error

pub data Attempt (A : Type 0) : Type 0 where
  returned : A → Attempt A
  raised : Error → Attempt A

pub Attempt-cases :
    {A : Type 0} (o : Attempt A) → ((e : Error) × (o ≡ raised e)) ⊎ ((a : A) × (o ≡ returned a))
Attempt-cases (raised e) = inl (e, refl)
Attempt-cases (returned a) = inr (a, refl)

module _ ⦃pl : Platform⦄ where
  -- The card and the signature of the member, where the client has both; none is an exception of
  -- the signature.
  abbrev pub carried :
      Option String
      → Option String
      → String
      → String
      → Bytes
      → String
      → String
      → Option (List (String × String))
  carried none key url method body seconds nonce = some []
  carried (some card) none url method body seconds nonce = some []
  carried (some card) (some key) url method body seconds nonce =
      if nonempty card && nonempty key
      then Option.map (λ signed. (Header.card, card) ∷ signed)
          (member_signed_headers key url method body seconds nonce)
      else some []

module _ {F : Type 0} ⦃pl : Platform⦄ ⦃rt : Runtime F⦄ where
  -- The body of a 2xx answer.
  unfoldable pub document_of : String → ℕ → Bytes → Attempt (Fields F)
  document_of url status [] = returned end
  document_of url status (b ∷ raw) = elim (rt.loads (b ∷ raw)) [
    | none ↦
        raised (if rt.loads_escapes (b ∷ raw) then other_error else coordinator_error status url)
    | some (obj doc) ↦ returned doc
    | some _ ↦ raised (coordinator_error status url)
  ]

  -- What `_call` makes of the answer: it catches a URLError, and no other exception.
  unfoldable pub reply_document : String → Answer → Attempt (Fields F)
  reply_document url unreachable = raised (coordinator_error 0 url)
  reply_document url broken = raised other_error
  reply_document url (answered (status, raw)) =
      if leb 200 status && ltb status 300
      then document_of url status raw
      else raised (coordinator_error status url)

  abbrev pub member_part :
      Bool
      → GridClient F
      → String
      → String
      → Bytes
      → String
      → String
      → Option (List (String × String))
  member_part as_member c url method body seconds nonce =
      if as_member
      then carried c.card_header c.member_sign_b64 url method body seconds nonce
      else some []

  abbrev pub payload_bytes : Option (Fields F) → Bytes
  payload_bytes none = []
  payload_bytes (some d) = pl.utf8 (rt.dumps (obj d))

  abbrev pub payload_type : Option (Fields F) → List (String × String)
  payload_type none = []
  payload_type (some d) = ("Content-Type", "application/json") ∷ []

  -- The request of `_call`; none where the signature raises.
  unfoldable pub request_of :
      GridClient F → String → String → Option (Fields F) → Bool → String → String → Option (Call F)
  request_of c method path payload as_member seconds nonce = do
    let url = c.coordinator_url +++ path
    let body = payload_bytes payload
    extra ← member_part as_member c url method body seconds nonce
    some (record {
      timeout = c.timeout;
      url = url;
      method = method;
      body = body;
      headers =
          ("Accept", "application/json")
          ∷ ("User-Agent", "nycc-client/0.1")
          ∷ (payload_type payload ++ extra);
    })

module _ {F S : Type 0} ⦃pl : Platform⦄ ⦃rt : Runtime F⦄ (net : Net F S) where
  -- `_call`
  unfoldable pub call :
      GridClient F → S → String → String → Option (Fields F) → Bool → S × Attempt (Fields F)
  call c s method path payload as_member =
      elim (request_of c method path payload as_member (net.seconds s) (net.nonce s)) [
        | none ↦ (s, raised other_error)
        | some request ↦
            let (t, reply) = net.answer s request in
            (t, reply_document (c.coordinator_url +++ path) reply)
      ]

  unfoldable pub status : GridClient F → S → String → S × Attempt (Fields F)
  status c s job_id = call c s "GET" ("/v1/jobs/" +++ pl.quote job_id) none false
