-- ===== src/Coordinator/Gate/Admission.antt =====
-- What a request has shown when `_member_gate` of pygrid/testkit.py lets it through.
use nycc_grid.Crypto.Header
use nycc_grid.Base.{
  Option-cases, String, ◌≡◌, inl, inr, Bool, true, false, none, some, [], arith, nat_eq, string_eq,
  pair_eq,
}
use nycc_grid.Coordinator.Gate.{
  Member, Verdict, text_or, card_of, gate_card, gate_skew, gate_signature, gate_checks, accepts,
  denies,
}
use nycc_grid.Runtime.{Bytes, Platform, Runtime}
use nycc_grid.Coordinator.Headers.{
  Request, headers_dict, header_of, MemberHeaders, member_headers, member_message,
}
use nycc_grid.Base.Dict.{Dict, get}
use nycc_grid.Json.{Fields, get_field, obj}
use nycc_grid.Club.{check_card, decode_card_header}
use nycc_grid.Base.Int.{ℤ}
use nycc_grid.Crypto.{max_skew_s, signing_message, b64d, verify}

abbrev is_accepted : {F A : Type 0} → Verdict F A → Bool
is_accepted (accepts a) = true
is_accepted (denies r) = false

-- The value of the first Host header, or nothing.
abbrev pub host_of : ⦃pl : Platform⦄ → Request → String
host_of req = elim (header_of "Host" req.headers) [ none ↦ "" | some h ↦ h ]

module _ ⦃pl : Platform⦄ where
  member_headers-sent :
      (hdrs : Dict String String) (m : MemberHeaders)
      → member_headers hdrs ≡ some m
      → (get hdrs (pl.lower "X-NYCC-Member-Ts") ≡ some m.ts)
        × (get hdrs (pl.lower "X-NYCC-Member-Nonce") ≡ some m.nonce)
        × (get hdrs (pl.lower "X-NYCC-Member-Sig") ≡ some m.sig_b64)
  unfolding member_headers
  member_headers-sent hdrs m h = ground arith

module _ {F : Type 0} ⦃pl : Platform⦄ ⦃rt : Runtime F⦄ where
  -- The evidence of an admitted request: a document in the card header that passes `check_card`
  -- against the club key, a timestamp, a nonce and a signature in its member headers, and the
  -- signature verified by the card's member key on the message made of the request's host, target,
  -- timestamp, nonce and body, at a time within the window.
  pub record Evidence (gate_time : F) (req : Request) (raw : Bytes) (club_key : String)
      (member : Member) (m : MemberHeaders) : Type 0 where
    pub document : Fields F
    pub header_value : String
    pub sent : get (headers_dict [] req.headers) (pl.lower Header.card) ≡ some header_value
    pub decoded : decode_card_header header_value ≡ some document
    pub by_club : check_card club_key (obj document) ≡ none
    pub key_of_card : member.key ≡ text_or (get_field (card_of document) "member_verify_key")
    pub name_of_card : member.name ≡ text_or (get_field (card_of document) "member")
    pub ts_sent : get (headers_dict [] req.headers) (pl.lower "X-NYCC-Member-Ts") ≡ some m.ts
    pub nonce_sent :
        get (headers_dict [] req.headers) (pl.lower "X-NYCC-Member-Nonce") ≡ some m.nonce
    pub sig_b64_sent :
        get (headers_dict [] req.headers) (pl.lower "X-NYCC-Member-Sig") ≡ some m.sig_b64
    pub sig : Bytes
    pub sig_sent : b64d m.sig_b64 ≡ some sig
    pub signed :
        verify member.key
          (signing_message (pl.lower (host_of req)) "POST" req.target m.ts m.nonce raw)
          sig
        ≡ true
    pub stamp : ℤ
    pub stamp_sent : pl.int_of_str m.ts ≡ some stamp
    pub time_of_stamp : F
    pub stamp_float : rt.float_of_int stamp ≡ some time_of_stamp
    pub in_window : rt.lt (rt.literal max_skew_s) (rt.abs (rt.sub gate_time time_of_stamp)) ≡ false

  gate_card-accepts :
      (club_key : String) (hdrs : Dict String String) (doc : Fields F)
      → gate_card club_key hdrs ≡ accepts doc
      → (value : String) × (get hdrs (pl.lower Header.card) ≡ some value)
        × (decode_card_header value ≡ some doc)
        × (check_card club_key (obj doc) ≡ none)
  unfolding gate_card
  gate_card-accepts club_key hdrs doc h = ground arith

  pub gate_signature-headers :
      (gate_time : F) (req : Request) (raw : Bytes) (hdrs : Dict String String) (key : String)
      (m : MemberHeaders)
      → gate_signature gate_time req raw hdrs key ≡ accepts m
      → member_headers hdrs ≡ some m
  unfolding gate_signature
  gate_signature-headers gate_time req raw hdrs key m h = ground arith

  gate_signature-stamp :
      (gate_time : F) (req : Request) (raw : Bytes) (hdrs : Dict String String) (key : String)
      (m : MemberHeaders)
      → gate_signature gate_time req raw hdrs key ≡ accepts m
      → (stamp : ℤ) × (pl.int_of_str m.ts ≡ some stamp)
        × (is_accepted (gate_skew gate_time stamp) ≡ true)
  unfolding gate_signature
  gate_signature-stamp gate_time req raw hdrs key m h =
      let found = gate_signature-headers gate_time req raw hdrs key m h in
      elim (Option-cases (pl.int_of_str m.ts)) [
        | inl e ↦ absurd (ground (arith, found, e))
        | inr (z, e) ↦ (z, e, ground (arith, found, e))
      ]

  gate_signature-sig :
      (gate_time : F) (req : Request) (raw : Bytes) (hdrs : Dict String String) (key : String)
      (m : MemberHeaders)
      → gate_signature gate_time req raw hdrs key ≡ accepts m
      → (sig : Bytes) × (b64d m.sig_b64 ≡ some sig)
        × (verify key
              (signing_message (pl.lower (host_of req)) "POST" req.target m.ts m.nonce raw)
              sig
            ≡ true)
  unfolding gate_signature member_message
  gate_signature-sig gate_time req raw hdrs key m h =
      ground (arith, gate_signature-headers gate_time req raw hdrs key m h)

  gate_skew-accepts :
      (gate_time : F) (stamp : ℤ)
      → is_accepted (gate_skew gate_time stamp) ≡ true
      → (time : F) × (rt.float_of_int stamp ≡ some time)
        × (rt.lt (rt.literal max_skew_s) (rt.abs (rt.sub gate_time time)) ≡ false)
  unfolding gate_skew
  gate_skew-accepts gate_time stamp h = ground arith

  gate_checks-parts :
      (gate_time : F) (req : Request) (raw : Bytes) (club_key : String) (member : Member)
      (m : MemberHeaders)
      → gate_checks gate_time req raw club_key ≡ accepts (member, m)
      → (doc : Fields F) × (gate_card club_key (headers_dict [] req.headers) ≡ accepts doc)
        × (gate_signature gate_time req raw (headers_dict [] req.headers) member.key ≡ accepts m)
        × (member.key ≡ text_or (get_field (card_of doc) "member_verify_key"))
        × (member.name ≡ text_or (get_field (card_of doc) "member"))
  unfolding gate_checks
  gate_checks-parts gate_time req raw club_key member m h = ground arith

  -- A request that passes the checks of the gate carries the evidence: a card that the club signed
  -- and a timely signature by the key on that card, over this request.
  pub gate_checks-Evidence :
      (gate_time : F) (req : Request) (raw : Bytes) (club_key : String) (member : Member)
      (m : MemberHeaders)
      → gate_checks gate_time req raw club_key ≡ accepts (member, m)
      → Evidence gate_time req raw club_key member m
  gate_checks-Evidence gate_time req raw club_key member m h =
      let (doc, hc, hs, hk, hn) = gate_checks-parts gate_time req raw club_key member m h in
      let hdrs = headers_dict [] req.headers in
      let (value, sent, decoded, good) = gate_card-accepts club_key hdrs doc hc in
      let (stamp, stamped, skew) = gate_signature-stamp gate_time req raw hdrs member.key m hs in
      let (sig, sig_sent, signed) = gate_signature-sig gate_time req raw hdrs member.key m hs in
      let (ts_sent, nonce_sent, sig_b64_sent) =
        member_headers-sent hdrs m
          (gate_signature-headers gate_time req raw hdrs member.key m hs) in
      let (time, floated, near) = gate_skew-accepts gate_time stamp skew in
      record {
        document = doc;
        header_value = value;
        sent = sent;
        decoded = decoded;
        by_club = good;
        key_of_card = hk;
        name_of_card = hn;
        ts_sent = ts_sent;
        nonce_sent = nonce_sent;
        sig_b64_sent = sig_b64_sent;
        sig = sig;
        sig_sent = sig_sent;
        signed = signed;
        stamp = stamp;
        stamp_sent = stamped;
        time_of_stamp = time;
        stamp_float = floated;
        in_window = near;
      }
