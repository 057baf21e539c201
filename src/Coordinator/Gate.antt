-- ===== src/Coordinator/Gate.antt =====
-- `_member_gate` of _CoordinatorHandler in pygrid/testkit.py: with a club key configured, a job is
-- submitted only under a card that the club signed and a fresh signature of its member.
pub mod Admission
pub mod Replay
use nycc_grid.Base.{
  if◌then◌else◌, String, ◌≡◌, refl, ◌⊎◌, inl, inr, Bool, true, false, not, Option, none, some, [],
  ◌∷◌, ◌++◌, nat_eq, string_eq, pair_eq,
}
use nycc_grid.Base.Int.{ℤ}
use nycc_grid.Base.Dict.{Dict, put, has}
use nycc_grid.Json.{Json, Fields, get_field, fields, as_str, as_obj, nonempty, str, obj, end}
use nycc_grid.Runtime.{Bytes, Platform, Runtime}
use nycc_grid.Crypto.{max_skew_s, b64d, verify}
use nycc_grid.Crypto.Header
use nycc_grid.Club.{
  err_card_required, err_card_malformed, err_member_sig_missing, err_member_sig_malformed,
  err_member_sig_expired, err_member_sig_invalid, err_member_sig_replay, check_card,
  decode_card_header,
}
use nycc_grid.Coordinator.Headers.{
  Request, headers_dict, filled, MemberHeaders, member_headers, member_message,
}
use nycc_grid.Coordinator.State.{Coordinator, Reply, World, send, crash}

-- `self._deny(code, detail)`
abbrev pub deny : {F : Type 0} → String → String → Reply F
deny code detail = send 403 (fields (("error", str detail) ∷ ("code", str code) ∷ []))

-- The identity on an accepted card: the key that signs the requests, and the name.
pub record Member : Type 0 where
  pub key : String
  pub name : String

-- How one part of the gate ends: with its value, with a denial, or with an uncaught exception.
pub data Verdict (F A : Type 0) : Type 0 where
  accepts : A → Verdict F A
  denies : Reply F → Verdict F A

infixl 5 ◌>>=◌
abbrev pub ◌>>=◌ : {F A B : Type 0} → Verdict F A → (A → Verdict F B) → Verdict F B
accepts a >>= f = f a
denies r >>= f = denies r

pub Verdict-cases :
    {F A : Type 0} (v : Verdict F A)
    → ((r : Reply F) × (v ≡ denies r)) ⊎ ((a : A) × (v ≡ accepts a))
Verdict-cases (accepts a) = inr (a, refl)
Verdict-cases (denies r) = inl (r, refl)

abbrev pub text_or : {F : Type 0} → Json F → String
text_or v = elim (as_str v) [ none ↦ "" | some s ↦ s ]

module _ {F : Type 0} where
  abbrev pub card_of : Fields F → Fields F
  card_of doc = elim (as_obj (get_field doc "card")) [ none ↦ end | some c ↦ c ]

  abbrev pub require : {A : Type 0} → Option A → String → String → Verdict F A
  require none code detail = denies (deny code detail)
  require (some a) code detail = accepts a

  abbrev pub demand : Bool → String → String → Verdict F (Unit {0})
  demand true code detail = accepts tt
  demand false code detail = denies (deny code detail)

module _ {F : Type 0} ⦃pl : Platform⦄ ⦃rt : Runtime F⦄ where
  -- The card header, decoded and checked against the club key.
  unfoldable pub gate_card : String → Dict String String → Verdict F (Fields F)
  gate_card club_key hdrs = do
    value ← require (filled hdrs Header.card) err_card_required "membership card required"
    doc ← require (decode_card_header value) err_card_malformed "card header is not base64 json"
    elim (check_card club_key (obj doc)) [
      | some code ↦ denies (deny code "card rejected")
      | none ↦ accepts doc
    ]

  -- `abs(time.time() - ts_int) > MAX_SKEW_S`; an int beyond the floats raises OverflowError.
  unfoldable pub gate_skew : F → ℤ → Verdict F (Unit {0})
  gate_skew gate_time ts = elim (rt.float_of_int ts) [
    | none ↦ denies crash
    | some t ↦
        demand (not (rt.lt (rt.literal max_skew_s) (rt.abs (rt.sub gate_time t))))
          err_member_sig_expired "member timestamp outside the window"
  ]

  -- The member headers, from the timestamp to the signature.
  unfoldable pub gate_signature :
      F → Request → Bytes → Dict String String → String → Verdict F MemberHeaders
  gate_signature gate_time req raw hdrs member_key = do
    m ← require (member_headers hdrs) err_member_sig_missing "member signature headers required"
    ts ← require (pl.int_of_str m.ts) err_member_sig_malformed "member timestamp is not an integer"
    _ ← gate_skew gate_time ts
    sig ← require (b64d m.sig_b64) err_member_sig_malformed "member signature is not base64"
    _ ←
        demand (verify member_key (member_message req m raw) sig) err_member_sig_invalid
          "member signature does not verify"
    accepts m

  -- Everything before the nonce: the member and the headers that passed.
  unfoldable pub gate_checks : F → Request → Bytes → String → Verdict F (Member × MemberHeaders)
  gate_checks gate_time req raw club_key = do
    doc ← gate_card club_key (headers_dict [] req.headers)
    m ←
        gate_signature gate_time req raw (headers_dict [] req.headers)
          (text_or (get_field (card_of doc) "member_verify_key"))
    accepts (
      record {
        key = text_or (get_field (card_of doc) "member_verify_key");
        name = text_or (get_field (card_of doc) "member");
      },
      m,
    )

  -- The nonce, once for each member key; none lets the submission go on.
  unfoldable pub gate_nonce :
      World F → Member × MemberHeaders → Coordinator F → Coordinator F × Option (Reply F)
  gate_nonce w (member, m) s =
      if has s.member_nonces (member.key, m.nonce)
      then (s, some (deny err_member_sig_replay "member nonce already used"))
      else (
        record s {
          member_nonces = put s.member_nonces (member.key, m.nonce) w.time;
          members_seen = s.members_seen ++ member.name ∷ [];
        },
        none,
      )

  unfoldable pub member_gate :
      World F → Request → Bytes → Coordinator F → Coordinator F × Option (Reply F)
  member_gate w req raw s =
      if not (nonempty s.club_verify_key)
      then (s, none)
      else elim (gate_checks w.gate_time req raw s.club_verify_key) [
        | denies r ↦ (s, some r)
        | accepts passed ↦ gate_nonce w passed s
      ]
