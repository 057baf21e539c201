-- ===== src/Coordinator/Effect/Routes.antt =====
-- The effect of a whole request through `do_get` and `do_post` of pygrid/testkit.py.
use text.Mathlib.Text.{starts_with}
use nycc_grid.Base.{
  Bool-cases, Option-cases, count_if, ◌==◌, String, ◌≡◌, ap, ◌∙◌, inl, inr, arith, nat_eq,
  string_eq, pair_eq,
}
use nycc_grid.Coordinator.State.{Coordinator, World, is_backlog, queued_count}
use nycc_grid.Coordinator.Effect.{
  SameBooks, Effect, Effect-idle, Effect-create_job, Effect-pull, idle, pulled, posted, created,
}
use nycc_grid.Coordinator.Routes.{
  is_post_route, Body-cases, json_body, gated_create, dispatch_post, do_post, do_get,
}
use nycc_grid.Coordinator.Gate.{gate_nonce, member_gate}
use nycc_grid.Runtime.{Bytes, Platform, Runtime}
use nycc_grid.Coordinator.Headers.{Request, header_of}
use nycc_grid.Json.{Fields}
use mathlib.Core.Path.{subst}
use nycc_grid.Crypto.Header
use nycc_grid.Base.Dict.{values}
use nycc_grid.Coordinator.Life.{PullStep, Moves, IsKeyed}
use nycc_grid.Coordinator.Submit.{create_job}
use nycc_grid.Coordinator.Effect.Requests.{Effect-result, Effect-register, Effect-heartbeat}

module _ {F : Type 0} where
  -- The gate writes nonces and names, and no more.
  pub record GateOnly (s t : Coordinator F) : Type 0 where
    pub same_jobs : t.jobs ≡ s.jobs
    pub same_nodes : t.nodes ≡ s.nodes
    pub same_idempotency : t.idempotency ≡ s.idempotency
    pub same_done : t.jobs_done ≡ s.jobs_done
    pub same_seq : t.seq ≡ s.seq

  SameBooks-of_GateOnly : (s t u : Coordinator F) → GateOnly s t → SameBooks t u → SameBooks s u
  SameBooks-of_GateOnly s t u g b = ground arith

  queued_count-GateOnly :
      (s t : Coordinator F) (n : String) → GateOnly s t → queued_count t n ≡ queued_count s n
  unfolding queued_count
  queued_count-GateOnly s t n g = ap (λ d. count_if (is_backlog n) (values d)) g.same_jobs

  Effect-of_GateOnly :
      (w : World F) (s t u : Coordinator F) → GateOnly s t → Effect w t u → Effect w s u
  Effect-of_GateOnly w s t u g (idle a b) = idle (a ∙ g.same_jobs) (SameBooks-of_GateOnly s t u g b)
  Effect-of_GateOnly w s t u g (pulled m b) =
      pulled (subst (λ d. Moves PullStep d u.jobs) g.same_jobs m) (SameBooks-of_GateOnly s t u g b)
  Effect-of_GateOnly w s t u g (posted j blob receipt a r b c d e) =
      posted j blob receipt (cc) r (cc) (cc) (cc) (cc)
  Effect-of_GateOnly w s t u g (created k r a b c d e f h) =
      created k r (cc) (omega (arith, queued_count-GateOnly s t r.0 g)) (cc) (cc) (cc) (cc) (cc)

module _ {F : Type 0} ⦃pl : Platform⦄ ⦃rt : Runtime F⦄ (w : World F) (req : Request) where
  pub member_gate-GateOnly :
      (raw : Bytes) (s : Coordinator F) → GateOnly s (member_gate w req raw s).0
  unfolding member_gate gate_nonce
  member_gate-GateOnly raw s = ground arith

  pub Effect-member_gate :
      (raw : Bytes) (s : Coordinator F) → Effect w s (member_gate w req raw s).0
  Effect-member_gate raw s =
      let t = (member_gate w req raw s).0 in
      Effect-of_GateOnly w s t t (member_gate-GateOnly raw s) (Effect-idle w t)

  Effect-gated_create :
      (body : Fields F) (raw : Bytes) (s : Coordinator F)
      → Effect w s (gated_create w req body raw s).0
  unfolding gated_create
  Effect-gated_create body raw s =
      let t = (member_gate w req raw s).0 in
      let g = member_gate-GateOnly raw s in
      elim (Option-cases (member_gate w req raw s).1) [
        | inl open_gate ↦
            rw (open_gate, gated_create)
              (Effect-of_GateOnly w s t (create_job w body t).0 g (Effect-create_job w t body))
        | inr (r, e) ↦ rw (e, gated_create) (Effect-of_GateOnly w s t t g (Effect-idle w t))
      ]

  Effect-dispatch_post :
      (path : String) (body : Fields F) (raw : Bytes) (s : Coordinator F)
      → IsKeyed s.jobs
      → Effect w s (dispatch_post w req path body raw s).0
  Effect-dispatch_post path body raw s h = elim (Bool-cases (path == "/v1/jobs")) [
    | inl e ↦ rw e (Effect-gated_create body raw s)
    | inr e ↦ elim (Bool-cases (path == "/v1/nodes/register")) [
      | inl e2 ↦ rw e (rw e2 (Effect-register w s body))
      | inr e2 ↦ elim (Bool-cases (path == "/v1/nodes/heartbeat")) [
        | inl e3 ↦
            rw e (rw e2 (rw e3 (Effect-heartbeat w s (header_of Header.node_id req.headers) body)))
        | inr e3 ↦
            rw e (rw e2 (rw e3 (Effect-result w s (header_of Header.node_id req.headers) body h)))
      ]
    ]
  ]

  pub Effect-do_post : (s : Coordinator F) → IsKeyed s.jobs → Effect w s (do_post w req s).0
  unfolding do_post
  Effect-do_post s h = elim (Bool-cases (is_post_route (pl.url_path req.target))) [
    | inr e ↦ rw e (Effect-idle w s)
    | inl e ↦ elim (Body-cases (json_body {F = F} req)) [
      | inl (r, e2) ↦ rw e (rw (e2, do_post) (Effect-idle w s))
      | inr (body, raw, e2) ↦
          rw e (rw (e2, do_post) (Effect-dispatch_post (pl.url_path req.target) body raw s h))
    ]
  ]

  pub Effect-do_get : (s : Coordinator F) → IsKeyed s.jobs → Effect w s (do_get w req s).0
  unfolding do_get
  Effect-do_get s h =
      let path = pl.url_path req.target in
      let query = pl.parse_query (pl.url_query req.target) in
      elim (Bool-cases (path == "/healthz")) [
        | inl e ↦ rw e (Effect-idle w s)
        | inr e ↦ elim (Bool-cases (path == "/v1/stats")) [
          | inl e2 ↦ rw e (rw e2 (Effect-idle w s))
          | inr e2 ↦ elim (Bool-cases (path == "/v1/nodes")) [
            | inl e3 ↦ rw e (rw e2 (rw e3 (Effect-idle w s)))
            | inr e3 ↦ elim (Bool-cases (path == "/v1/jobs/pull")) [
              | inl e4 ↦ rw e (
                  rw e2 (
                    rw e3 (rw e4 (Effect-pull w s (header_of Header.node_id req.headers) query h))))
              | inr e4 ↦ elim (Bool-cases (starts_with path "/v1/jobs/")) [
                | inl e5 ↦ rw e (rw e2 (rw e3 (rw e4 (rw e5 (Effect-idle w s)))))
                | inr e5 ↦ rw e (rw e2 (rw e3 (rw e4 (rw e5 (Effect-idle w s)))))
              ]
            ]
          ]
        ]
      ]
