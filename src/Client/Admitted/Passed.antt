-- ===== src/Client/Admitted/Passed.antt =====
-- Why the member gate of pygrid/testkit.py lets a carded submission of pygrid/client.py pass.
use mathlib.Core.List.{append_assoc}
use nycc_grid.Base.{
  String, ◌≡◌, true, false, none, some, List, [], ◌∷◌, ◌++◌, arith, eq_iff, string_eq, pair_eq,
  nat_eq,
}
use nycc_grid.Base.Int.{ℤ}
use nycc_grid.Base.Dict.{Dict, get, has}
use nycc_grid.Json.{Fields, get_field, nonempty, obj}
use nycc_grid.Runtime.{Bytes, Platform, Runtime}
use nycc_grid.Net.{Call}
use nycc_grid.Crypto.{max_skew_s, b64e, sign, signing_message, split_target}
use nycc_grid.Crypto.Header
use nycc_grid.Crypto.Pairs.{IsSignPair}
use nycc_grid.Club.{check_card, decode_card_header}
use nycc_grid.Client.Calls.{request_of}
use nycc_grid.Client.Admitted.{
  AreApart, arrival, carded_headers, carded_dict, Carries, request_of-Carries,
}
use nycc_grid.Coordinator.Headers.{
  Request, headers_dict, header_of, MemberHeaders, member_headers, member_message,
}
use nycc_grid.Coordinator.Gate.{
  Member, text_or, card_of, gate_card, gate_skew, gate_signature, gate_checks, gate_nonce,
  member_gate, accepts,
}
use nycc_grid.Client.Setup.{GridClient}
use nycc_grid.Coordinator.State.{Coordinator, World}

module _ ⦃pl : Platform⦄ where
  -- The dict of headers of the request that arrives.
  arrival_dict :
      {F : Type 0} (more : List (String × String)) (sent : Call F) (card seconds nonce : String)
      (sig : Bytes) (hs : List (String × String))
      → AreApart
      → sent.headers ≡ hs ++ carded_headers card seconds nonce sig
      → let d = headers_dict [] (arrival more sent).headers in
        (get d (pl.lower Header.card) ≡ some card)
        × (get d (pl.lower Header.member_timestamp) ≡ some seconds)
        × (get d (pl.lower Header.member_nonce) ≡ some nonce)
        × (get d (pl.lower Header.member_signature) ≡ some (b64e sig))
  arrival_dict more sent card seconds nonce sig hs a e =
      let front : List (String × String) = ("Host", pl.split_netloc sent.url) ∷ (more ++ hs) in
      rw (e, ← append_assoc more hs (carded_headers card seconds nonce sig))
        (carded_dict card seconds nonce sig front a)

  -- The message that the gate rebuilds is the one that the client signed.
  member_message-arrival :
      {F : Type 0} (more : List (String × String)) (sent : Call F) (m : MemberHeaders) (raw : Bytes)
      → member_message (arrival more sent) m raw
        ≡ signing_message
            (split_target sent.url).0
            "POST"
            (split_target sent.url).1
            m.ts
            m.nonce
            raw
  unfolding member_message header_of split_target
  member_message-arrival more sent m raw =
      ground (arith, eq_iff (pl.lower "Host") (pl.lower "Host"))

module _ {F : Type 0} ⦃pl : Platform⦄ ⦃rt : Runtime F⦄ where
  -- A club's document in a card header, with the member's key, and a time that the gate takes.
  pub record IsAdmissible (gate_time : F) (club_key card key seconds nonce : String) : Type 0 where
    pub doc : Fields F
    pub decodes : decode_card_header card ≡ some doc
    pub by_club : check_card club_key (obj doc) ≡ none
    pub pair : IsSignPair (text_or (get_field (card_of doc) "member_verify_key")) key
    pub some_card : nonempty card ≡ true
    pub some_seconds : nonempty seconds ≡ true
    pub some_nonce : nonempty nonce ≡ true
    pub ts : ℤ
    pub reads : pl.int_of_str seconds ≡ some ts
    pub t : F
    pub floats : rt.float_of_int ts ≡ some t
    pub in_window : rt.lt (rt.literal max_skew_s) (rt.abs (rt.sub gate_time t)) ≡ false

  abbrev pub bearer : Fields F → Member
  bearer doc = record {
    key = text_or (get_field (card_of doc) "member_verify_key");
    name = text_or (get_field (card_of doc) "member");
  }

  gate_card-passed :
      (gate_time : F) (club_key card key seconds nonce : String) (hdrs : Dict String String)
      (k : IsAdmissible gate_time club_key card key seconds nonce)
      → get hdrs (pl.lower Header.card) ≡ some card
      → gate_card club_key hdrs ≡ accepts k.doc
  unfolding gate_card
  gate_card-passed gate_time club_key card key seconds nonce hdrs k found =
      ground (arith, found, k.some_card, k.decodes, k.by_club)

  gate_signature-passed :
      (gate_time : F) (req : Request) (raw sig : Bytes) (hdrs : Dict String String)
      (club_key card key seconds nonce : String)
      (k : IsAdmissible gate_time club_key card key seconds nonce)
      → get hdrs (pl.lower Header.member_timestamp) ≡ some seconds
      → get hdrs (pl.lower Header.member_nonce) ≡ some nonce
      → get hdrs (pl.lower Header.member_signature) ≡ some (b64e sig)
      → sign key
          (member_message req (record { ts = seconds; nonce = nonce; sig_b64 = b64e sig }) raw)
        ≡ some sig
      → gate_signature gate_time req raw hdrs (bearer k.doc).key
        ≡ accepts (record { ts = seconds; nonce = nonce; sig_b64 = b64e sig })
  unfolding gate_signature gate_skew member_headers
  gate_signature-passed gate_time req raw sig hdrs club_key card key seconds nonce k ft fn fs
        signed =
      let m : MemberHeaders = record { ts = seconds; nonce = nonce; sig_b64 = b64e sig } in
      let message = member_message req m raw in
      ground (
        arith,
        ft,
        fn,
        fs,
        k.some_seconds,
        k.some_nonce,
        k.pair.some_text message sig signed,
        k.reads,
        k.floats,
        k.in_window,
        k.pair.survives message sig signed,
        k.pair.accepts message sig signed,
      )

  -- A submission of a client that carries a card of the club passes the checks of the member gate
  -- when it arrives as it was sent.
  gate_checks-passed :
      (c : GridClient F) (payload : Fields F) (card key seconds nonce : String) (sent : Call F)
      (more : List (String × String)) (gate_time : F) (club_key : String)
      (sub : Carries c payload card key seconds nonce sent)
      (k : IsAdmissible gate_time club_key card key seconds nonce)
      → AreApart
      → gate_checks gate_time (arrival more sent) sent.body club_key
        ≡ accepts (bearer k.doc, record { ts = seconds; nonce = nonce; sig_b64 = b64e sub.sig })
  unfolding gate_checks
  gate_checks-passed c payload card key seconds nonce sent more gate_time club_key sub k a =
      let req = arrival more sent in
      let hdrs = headers_dict [] req.headers in
      let m : MemberHeaders = record { ts = seconds; nonce = nonce; sig_b64 = b64e sub.sig } in
      let (fc, ft, fn, fs) =
        arrival_dict more sent card seconds nonce sub.sig sub.hs a sub.headers in
      let signed : sign key (member_message req m sent.body) ≡ some sub.sig =
        rw (member_message-arrival more sent m sent.body) sub.signed in
      ground (
        arith,
        gate_card-passed gate_time club_key card key seconds nonce hdrs k fc,
        gate_signature-passed gate_time req sent.body sub.sig hdrs club_key card key seconds nonce k
            ft fn fs signed,
      )

  -- The submission that a client with a card and a member key sends is let through by the member
  -- gate of a coordinator that has not seen its nonce: if the card in the header is one that the
  -- club signed, for the key that verifies what the member key signs, the timestamp is a number in
  -- the window, the request arrives as it was sent, and the names of the headers differ in lower
  -- case.
  pub member_gate-request_of :
      (c : GridClient F) (payload : Fields F) (card key seconds nonce : String) (sent : Call F)
      (more : List (String × String)) (w : World F) (s : Coordinator F)
      (k : IsAdmissible w.gate_time s.club_verify_key card key seconds nonce)
      → AreApart
      → c.card_header ≡ some card
      → c.member_sign_b64 ≡ some key
      → nonempty key ≡ true
      → request_of c "POST" "/v1/jobs" (some payload) true seconds nonce ≡ some sent
      → has s.member_nonces ((bearer k.doc).key, nonce) ≡ false
      → (member_gate w (arrival more sent) sent.body s).1 ≡ none
  unfolding member_gate gate_nonce
  member_gate-request_of c payload card key seconds nonce sent more w s k a hc hk nk made new =
      let sub =
        request_of-Carries c payload card key seconds nonce sent hc hk k.some_card nk made in
      ground (
        arith,
        new,
        gate_checks-passed c payload card key seconds nonce sent more w.gate_time s.club_verify_key
            sub k a,
      )
