-- ===== src/Coordinator/Gate/Replay.antt =====
-- A member signature opens the gate of pygrid/testkit.py once.
use nycc_grid.Base.{
  pair_beq_iff, String, ◌≡◌, inl, inr, true, false, none, some, [], ◌∷◌, ◌++◌, arith, nat_eq,
  string_eq, pair_eq,
}
use nycc_grid.Coordinator.State.{Coordinator, Reply, World}
use nycc_grid.Coordinator.Gate.{
  deny, Member, Verdict-cases, gate_checks, gate_nonce, member_gate, accepts,
}
use nycc_grid.Runtime.{Bytes, Platform, Runtime}
use nycc_grid.Coordinator.Headers.{Request, headers_dict, MemberHeaders}
use nycc_grid.Json.{nonempty}
use nycc_grid.Base.Dict.{put, has, get-put}
use nycc_grid.Club.{err_member_sig_replay}
use nycc_grid.Coordinator.Gate.Admission.{gate_signature-headers}

module _ {F : Type 0} ⦃pl : Platform⦄ ⦃rt : Runtime F⦄ where
  -- A denied request changes nothing, names and nonces included.
  pub member_gate_denied :
      (w : World F) (req : Request) (raw : Bytes) (s : Coordinator F) (r : Reply F)
      → (member_gate w req raw s).1 ≡ some r
      → (member_gate w req raw s).0 ≡ s
  unfolding member_gate gate_nonce
  member_gate_denied w req raw s r h = ground arith

  -- Behind a club key an admitted request has passed the checks, its nonce was unknown for its
  -- key, and now it is known.
  pub member_gate_admitted :
      (w : World F) (req : Request) (raw : Bytes) (s : Coordinator F)
      → nonempty s.club_verify_key ≡ true
      → (member_gate w req raw s).1 ≡ none
      → (p : Member × MemberHeaders) × (gate_checks w.gate_time req raw s.club_verify_key
          ≡ accepts p)
        × (has s.member_nonces (p.0.key, p.1.nonce) ≡ false)
        × ((member_gate w req raw s).0.member_nonces
            ≡ put s.member_nonces (p.0.key, p.1.nonce) w.time)
        × ((member_gate w req raw s).0.members_seen ≡ s.members_seen ++ p.0.name ∷ [])
  unfolding member_gate gate_nonce
  member_gate_admitted w req raw s k h = ground arith

  -- The gate reads the member and the nonce off the request alone, not off the clock.
  gate_checks_same :
      (g1 g2 : F) (req : Request) (raw : Bytes) (key : String) (p q : Member × MemberHeaders)
      → gate_checks g1 req raw key ≡ accepts p
      → gate_checks g2 req raw key ≡ accepts q
      → p ≡ q
  unfolding gate_checks
  gate_checks_same g1 g2 req raw key p q h k =
      let hdrs = headers_dict [] req.headers in
      ground (
        arith,
        gate_signature-headers g1 req raw hdrs p.0.key p.1,
        gate_signature-headers g2 req raw hdrs q.0.key q.1,
      )

  gate_nonce_known :
      (w : World F) (p : Member × MemberHeaders) (s : Coordinator F)
      → has s.member_nonces (p.0.key, p.1.nonce) ≡ true
      → (r : Reply F) × (gate_nonce w p s ≡ (s, some r))
  unfolding gate_nonce
  gate_nonce_known w p s h = (deny err_member_sig_replay "member nonce already used", ground arith)

  -- Once admitted, the same request is denied by every later coordinator with the same club key
  -- that still knows the nonces that this admission left behind, at any time, and changes nothing.
  pub member_gate_replay :
      (w v : World F) (req : Request) (raw : Bytes) (s t : Coordinator F)
      → nonempty s.club_verify_key ≡ true
      → (member_gate w req raw s).1 ≡ none
      → t.club_verify_key ≡ s.club_verify_key
      → ((k : String × String)
          → has (member_gate w req raw s).0.member_nonces k ≡ true
          → has t.member_nonces k ≡ true)
      → (r : Reply F) × (member_gate v req raw t ≡ (t, some r))
  unfolding member_gate
  member_gate_replay w v req raw s t key open_gate same kept =
      let (p, passed, fresh, book, names) = member_gate_admitted w req raw s key open_gate in
      let noted : has (member_gate w req raw s).0.member_nonces (p.0.key, p.1.nonce) ≡ true =
        ground (
          arith,
          book,
          get-put s.member_nonces (p.0.key, p.1.nonce) (p.0.key, p.1.nonce) w.time,
          pair_beq_iff (p.0.key, p.1.nonce) (p.0.key, p.1.nonce),
        ) in
      elim (Verdict-cases (gate_checks v.gate_time req raw t.club_verify_key)) [
        | inl (r, e) ↦ (r, ground (arith, e, key, same))
        | inr (q, e) ↦
            let agree : p ≡ q =
              gate_checks_same w.gate_time v.gate_time req raw s.club_verify_key p q passed
                (rw (← same) e) in
            let (r, answer) = gate_nonce_known v p t (kept (p.0.key, p.1.nonce) noted) in
            (r, ground (arith, e, key, same, agree, answer))
      ]
