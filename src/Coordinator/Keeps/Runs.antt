-- ===== src/Coordinator/Keeps/Runs.antt =====
-- Over runs of MockCoordinator of pygrid/testkit.py: nothing that admission rests on is forgotten.
use nycc_grid.Crypto.Header
use nycc_grid.Base.{
  Bool-cases, Option-cases, ◌==◌, String, ◌≡◌, refl, ◌⊎◌, inl, inr, true, arith, string_eq, pair_eq,
  nat_eq,
}
use nycc_grid.Coordinator.State.{Coordinator, World}
use nycc_grid.Coordinator.Keeps.{
  Keeps, Keeps-refl, Keeps-trans, Keeps-create_job, Keeps-pull, Keeps-result, Keeps-heartbeat,
  Keeps-register,
}
use nycc_grid.Coordinator.Routes.{
  is_post_route, Body-cases, json_body, gated_create, dispatch_post, do_post, do_get,
}
use nycc_grid.Runtime.{Bytes, Platform, Runtime}
use nycc_grid.Coordinator.Headers.{Request, header_of, MemberHeaders}
use nycc_grid.Base.Dict.{Dict, put, has, get-put}
use nycc_grid.Coordinator.Gate.{Member, Verdict-cases, gate_checks, gate_nonce, member_gate}
use nycc_grid.Coordinator.Pull.{pull}
use nycc_grid.Json.{Fields, nonempty}
use nycc_grid.Coordinator.Submit.{create_job}

module _ {F : Type 0} ⦃pl : Platform⦄ ⦃rt : Runtime F⦄ (w : World F) (req : Request) where
  nonce_kept :
      (d : Dict (String × String) F) (k n : String × String) (v : F)
      → has d n ≡ true
      → has (put d k v) n ≡ true
  nonce_kept d k n v h = ground (arith, get-put d k n v)

  Keeps-gate_nonce : (p : Member × MemberHeaders) (s : Coordinator F) → Keeps s (gate_nonce w p s).0
  unfolding gate_nonce
  Keeps-gate_nonce p s = elim (Bool-cases (has s.member_nonces (p.0.key, p.1.nonce))) [
    | inl used ↦ rw used (Keeps-refl s)
    | inr fresh ↦ rw fresh (record {
      nodes_kept = λ n h. h;
      nonces_kept = λ k h. nonce_kept s.member_nonces (p.0.key, p.1.nonce) k w.time h;
      key_kept = refl;
      filing_kept = λ f. f;
    })
  ]

  pub Keeps-member_gate : (raw : Bytes) (s : Coordinator F) → Keeps s (member_gate w req raw s).0
  unfolding member_gate
  Keeps-member_gate raw s = elim (Bool-cases (nonempty s.club_verify_key)) [
    | inr e ↦ rw e (Keeps-refl s)
    | inl e ↦ elim (Verdict-cases (gate_checks w.gate_time req raw s.club_verify_key)) [
      | inl (r, e2) ↦ rw e (rw (e2, member_gate) (Keeps-refl s))
      | inr (p, e2) ↦ rw e (rw (e2, member_gate) (Keeps-gate_nonce p s))
    ]
  ]

  Keeps-gated_create :
      (body : Fields F) (raw : Bytes) (s : Coordinator F)
      → Keeps s (gated_create w req body raw s).0
  unfolding gated_create
  Keeps-gated_create body raw s =
      let t = (member_gate w req raw s).0 in
      let k = Keeps-member_gate raw s in
      elim (Option-cases (member_gate w req raw s).1) [
        | inl e ↦
            rw (e, gated_create)
              (Keeps-trans s t (create_job w body t).0 k (Keeps-create_job w body t))
        | inr (r, e) ↦ rw (e, gated_create) k
      ]

  Keeps-dispatch_post :
      (path : String) (body : Fields F) (raw : Bytes) (s : Coordinator F)
      → Keeps s (dispatch_post w req path body raw s).0
  Keeps-dispatch_post path body raw s =
      let id = header_of Header.node_id req.headers in
      elim (Bool-cases (path == "/v1/jobs")) [
        | inl e ↦ rw e (Keeps-gated_create body raw s)
        | inr e ↦ elim (Bool-cases (path == "/v1/nodes/register")) [
          | inl e2 ↦ rw e (rw e2 (Keeps-register w s body))
          | inr e2 ↦ elim (Bool-cases (path == "/v1/nodes/heartbeat")) [
            | inl e3 ↦ rw e (rw e2 (rw e3 (Keeps-heartbeat w s id body)))
            | inr e3 ↦ rw e (rw e2 (rw e3 (Keeps-result w s id body)))
          ]
        ]
      ]

  pub Keeps-do_post : (s : Coordinator F) → Keeps s (do_post w req s).0
  unfolding do_post
  Keeps-do_post s = elim (Bool-cases (is_post_route (pl.url_path req.target))) [
    | inr e ↦ rw e (Keeps-refl s)
    | inl e ↦ elim (Body-cases (json_body {F = F} req)) [
      | inl (r, e2) ↦ rw e (rw (e2, do_post) (Keeps-refl s))
      | inr (body, raw, e2) ↦
          rw e (rw (e2, do_post) (Keeps-dispatch_post (pl.url_path req.target) body raw s))
    ]
  ]

  -- Only the pull route of `do_get` writes.
  do_get_cases :
      (s : Coordinator F)
      → ((do_get w req s).0 ≡ s)
        ⊎ ((do_get w req s).0
            ≡ (pull w
                (header_of Header.node_id req.headers)
                (pl.parse_query (pl.url_query req.target))
                s).0)
  unfolding do_get
  do_get_cases s = ground arith

  pub Keeps-do_get : (s : Coordinator F) → Keeps s (do_get w req s).0
  Keeps-do_get s = elim (do_get_cases s) [
    | inl e ↦ rw e (Keeps-refl s)
    | inr e ↦ rw e (
        Keeps-pull w (header_of Header.node_id req.headers)
          (pl.parse_query (pl.url_query req.target)) s)
  ]
