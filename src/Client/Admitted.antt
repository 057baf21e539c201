-- ===== src/Client/Admitted.antt =====
-- The submission of a carded client of pygrid/client.py, at the member gate of pygrid/testkit.py.
pub mod Passed
use mathlib.Core.Path.{subst}
use mathlib.Core.List.{append_assoc}
use nycc_grid.Base.{
  Option-cases, All, ◌==◌, String, ◌≡◌, refl, inl, inr, true, false, some, List, [], ◌∷◌, ◌++◌,
  arith, eq_iff, string_eq, pair_eq, nat_eq,
}
use nycc_grid.Base.Dict.{Dict, get, put, get-put}
use nycc_grid.Text.{all, ◌>>=◌}
use nycc_grid.Runtime.{Bytes, Platform, Runtime}
use nycc_grid.Net.{Call}
use nycc_grid.Crypto.{
  ◌+++◌, b64e, sign, signing_message, split_target, request_signature, member_signed_headers,
}
use nycc_grid.Crypto.Header
use nycc_grid.Client.Calls.{payload_bytes, request_of, call}
use nycc_grid.Coordinator.Headers.{Request, headers_dict}
use nycc_grid.Client.Setup.{GridClient}
use nycc_grid.Json.{Fields, nonempty}

module _ ⦃pl : Platform⦄ where
  -- No header of the list has this name.
  abbrev pub Unnamed : String → List (String × String) → Type 0
  Unnamed name = All (λ h. (pl.lower h.0 == name) ≡ false)

  headers_dict-skip :
      (name : String) (d : Dict String String) (hs : List (String × String))
      → Unnamed name hs
      → get (headers_dict d hs) name ≡ get d name
  unfolding headers_dict
  headers_dict-skip name d [] all = refl
  headers_dict-skip name d ((k, v) ∷ hs) (first, rest) = ground (
    arith,
    first,
    get-put d (pl.lower k) name v,
    headers_dict-skip name (put d (pl.lower k) v) hs rest,
  )

  -- The last header of a name is the one found.
  headers_dict-last :
      (name v : String) (d : Dict String String) (hs rest : List (String × String))
      → Unnamed (pl.lower name) rest
      → get (headers_dict d (hs ++ (name, v) ∷ rest)) (pl.lower name) ≡ some v
  unfolding headers_dict
  headers_dict-last name v d [] rest all =
      let k = pl.lower name in
      ground (arith, get-put d k k v, eq_iff k k, headers_dict-skip k (put d k v) rest all)
  headers_dict-last name v d ((k, w) ∷ hs) rest all =
      headers_dict-last name v (put d (pl.lower k) w) hs rest all

  -- The names of the card and of the member's signature differ when they are in lower case.
  pub record AreApart : Type 0 where
    pub card_ts : (pl.lower Header.member_timestamp == pl.lower Header.card) ≡ false
    pub card_nonce : (pl.lower Header.member_nonce == pl.lower Header.card) ≡ false
    pub card_sig : (pl.lower Header.member_signature == pl.lower Header.card) ≡ false
    pub ts_nonce : (pl.lower Header.member_nonce == pl.lower Header.member_timestamp) ≡ false
    pub ts_sig : (pl.lower Header.member_signature == pl.lower Header.member_timestamp) ≡ false
    pub nonce_sig : (pl.lower Header.member_signature == pl.lower Header.member_nonce) ≡ false

  -- A call as http delivers it: with the host of its url in front, and other headers of the
  -- library behind that.
  abbrev pub arrival : {F : Type 0} → List (String × String) → Call F → Request
  arrival more call = record {
    target = (split_target call.url).1;
    headers = ("Host", pl.split_netloc call.url) ∷ (more ++ call.headers);
    stream = call.body;
  }

  -- The headers that a carded client adds to its submission.
  abbrev pub carded_headers : String → String → String → Bytes → List (String × String)
  carded_headers card seconds nonce sig =
      (Header.card, card)
      ∷ (Header.member_timestamp, seconds)
      ∷ (Header.member_nonce, nonce)
      ∷ (Header.member_signature, b64e sig)
      ∷ []

  -- What the gate finds under each name.
  pub carded_dict :
      (card seconds nonce : String) (sig : Bytes) (hs : List (String × String))
      → AreApart
      → let d = headers_dict [] (hs ++ carded_headers card seconds nonce sig) in
        (get d (pl.lower Header.card) ≡ some card)
        × (get d (pl.lower Header.member_timestamp) ≡ some seconds)
        × (get d (pl.lower Header.member_nonce) ≡ some nonce)
        × (get d (pl.lower Header.member_signature) ≡ some (b64e sig))
  carded_dict card seconds nonce sig hs a =
      let c : String × String = (Header.card, card) in
      let t : String × String = (Header.member_timestamp, seconds) in
      let n : String × String = (Header.member_nonce, nonce) in
      let g : String × String = (Header.member_signature, b64e sig) in
      (
        headers_dict-last Header.card card [] hs (t ∷ n ∷ g ∷ [])
            (a.card_ts, (a.card_nonce, (a.card_sig, tt))),
        rw (← append_assoc hs (c ∷ []) (t ∷ n ∷ g ∷ [])) (
            headers_dict-last Header.member_timestamp seconds [] (hs ++ c ∷ []) (n ∷ g ∷ [])
              (a.ts_nonce, (a.ts_sig, tt))),
        rw (← append_assoc hs (c ∷ t ∷ []) (n ∷ g ∷ [])) (
            headers_dict-last Header.member_nonce nonce [] (hs ++ c ∷ t ∷ []) (g ∷ [])
              (a.nonce_sig, tt)),
        rw (← append_assoc hs (c ∷ t ∷ n ∷ []) (g ∷ []))
            (headers_dict-last Header.member_signature (b64e sig) [] (hs ++ c ∷ t ∷ n ∷ []) [] tt),
      )

module _ {F : Type 0} ⦃pl : Platform⦄ ⦃rt : Runtime F⦄ where
  -- The submission of a client that carries a card and a key: its headers and what it signed.
  pub record Carries (c : GridClient F) (payload : Fields F) (card key seconds nonce : String)
      (call : Call F) : Type 0 where
    pub sig : Bytes
    pub url : call.url ≡ c.coordinator_url +++ "/v1/jobs"
    pub body : call.body ≡ payload_bytes (some payload)
    pub signed :
        sign key (
          signing_message
            (split_target call.url).0
            "POST"
            (split_target call.url).1
            seconds
            nonce
            call.body)
        ≡ some sig
    pub hs : List (String × String)
    pub headers : call.headers ≡ hs ++ carded_headers card seconds nonce sig

  pub request_of-Carries :
      (c : GridClient F) (payload : Fields F) (card key seconds nonce : String) (call : Call F)
      → c.card_header ≡ some card
      → c.member_sign_b64 ≡ some key
      → nonempty card ≡ true
      → nonempty key ≡ true
      → request_of c "POST" "/v1/jobs" (some payload) true seconds nonce ≡ some call
      → Carries c payload card key seconds nonce call
  unfolding request_of member_signed_headers request_signature
  request_of-Carries c payload card key seconds nonce call hc hk nc nk made =
      let url = c.coordinator_url +++ "/v1/jobs" in
      let body = payload_bytes (some payload) in
      let message =
        signing_message (split_target url).0 "POST" (split_target url).1 seconds nonce body in
      elim (Option-cases (sign key message)) [
        | inl e ↦ absurd (ground (arith, e, hc, hk, nc, nk, made))
        | inr (sig, e) ↦
            let whole : record {
              timeout = c.timeout;
              url = url;
              method = "POST";
              body = body;
              headers =
                  ("Accept", "application/json")
                  ∷ ("User-Agent", "nycc-client/0.1")
                  ∷ ("Content-Type", "application/json")
                  ∷ carded_headers card seconds nonce sig;
            }
                ≡ call =
              ground (arith, e, hc, hk, nc, nk, made) in
            subst (Carries c payload card key seconds nonce) whole (record {
              sig = sig;
              url = refl;
              body = refl;
              signed = e;
              hs =
                  ("Accept", "application/json")
                  ∷ ("User-Agent", "nycc-client/0.1")
                  ∷ ("Content-Type", "application/json")
                  ∷ [];
              headers = refl;
            })
      ]
