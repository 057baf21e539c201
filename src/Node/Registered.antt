-- ===== src/Node/Registered.antt =====
-- When NodeAgent of pygrid/node.py counts itself registered.
use nycc_grid.Base.{
  ◌∙◌, ◌⊎◌, none, some, List, [], nat_beq, Bool-cases, Option-cases, is_some, ℕ, String, ◌≡◌, inl,
  inr, true, false, Option, arith,
}
use nycc_grid.Runtime.{Platform, Runtime}
use nycc_grid.Node.{Agent, measure_watts}
use nycc_grid.Net.{Net}
use mathlib.Core.Path.{subst}
use nycc_grid.Json.{Fields}
use nycc_grid.Crypto.{◌+++◌}
use nycc_grid.Protocol.{JobEnvelope}
use nycc_grid.Node.Said.{Said, coord-Said, Accepted, register-Accepted}
use nycc_grid.Node.Calls.{
  register, then_return, beaten, beat_call, heartbeat, pull_call, pull_again, pulled, pull,
}
use nycc_grid.Base.Int.{ℤ}

module _ {F S : Type 0} ⦃pl : Platform⦄ ⦃rt : Runtime F⦄ (net : Net F S) where
  pub register-registered :
      (a : Agent F) (s : S)
      → is_some (register net a s).2 ≡ true
      → (register net a s).0.registered ≡ true
  unfolding register
  register-registered a s h = ground arith

  measure_watts-registered :
      (meter : Option (ℤ × String)) (a : Agent F)
      → (measure_watts meter a).registered ≡ a.registered
  unfolding measure_watts
  measure_watts-registered meter a = ground arith

  then_return-registered :
      {A : Type 0} (v : A) (a : Agent F) (s : S)
      → is_some (then_return net v (register net a s)).2 ≡ true
      → (then_return net v (register net a s)).0.registered ≡ true
  unfolding register
  then_return-registered v a s h = ground arith

  beaten-registered :
      (a : Agent F) (s : S) (status : ℕ)
      → a.registered ≡ true
      → is_some (beaten net a s status).2 ≡ true
      → (beaten net a s status).0.registered ≡ true
  unfolding beaten
  beaten-registered a s status r h = elim (Bool-cases (nat_beq status 404)) [
    | inl lost ↦
        rw lost (
          then_return-registered false (record a { registered = false }) s
            (ground (arith, lost, h)))
    | inr known ↦ ground (arith, known, r, h)
  ]

  -- A registered agent whose heartbeat returns is registered afterwards: a 404 either leads to a
  -- new registration that the coordinator accepted, or the heartbeat raises.
  pub heartbeat-registered :
      (a : Agent F) (s : S)
      → a.registered ≡ true
      → is_some (heartbeat net a s).2 ≡ true
      → (heartbeat net a s).0.registered ≡ true
  unfolding heartbeat
  heartbeat-registered a s r h =
      let b = measure_watts (net.meter s) a in
      let t = (beat_call net b s).0 in
      elim (Option-cases (beat_call net b s).1) [
        | inl e ↦ absurd (ground (arith, e, h))
        | inr ((status, doc), e) ↦ ground (
          arith,
          e,
          r,
          h,
          measure_watts-registered (net.meter s) a,
          beaten-registered (record b { last_heartbeat = net.monotonic t }) t status,
        )
      ]

  -- A call to pull the jobs of the agent was answered with 200 and these envelopes.
  abbrev pub Listed : Agent F → S → S → List JobEnvelope → Type 0
  Listed a s t envs =
      (doc : Fields F) × Said net a s t "GET" ("/v1/jobs/pull?node_id=" +++ pl.quote a.node_id) []
        200 doc
      × (pulled net 200 doc ≡ some envs)

  -- The envelopes come from the answer of 200 to the first call, which leaves the agent as it was;
  -- or the first call was answered with 404, the coordinator then accepted a registration of the
  -- agent, and the envelopes come from the answer of 200 to a second call.
  abbrev pub Pulled : Agent F → S → Agent F → S → List JobEnvelope → Type 0
  Pulled a s b t envs =
      (Listed a s t envs × (b ≡ a))
      ⊎ ((u : S) × (v : S) × (doc : Fields F) × Said net a s u "GET"
            ("/v1/jobs/pull?node_id=" +++ pl.quote a.node_id) [] 404 doc
          × Accepted net a u v
          × Listed a v t envs
          × (b ≡ record a { registered = true; last_heartbeat = net.monotonic v }))

  pulled-200 :
      (status : ℕ) (doc : Fields F) (envs : List JobEnvelope)
      → pulled net status doc ≡ some envs
      → (status ≡ 200) × (pulled net 200 doc ≡ some envs)
  unfolding pulled
  pulled-200 status doc envs h = ground (arith, h)

  pull_call-Listed :
      (a : Agent F) (s t : S) (status : ℕ) (doc : Fields F) (envs : List JobEnvelope)
      → pull_call net a s ≡ (t, some (status, doc))
      → pulled net status doc ≡ some envs
      → Listed a s t envs
  pull_call-Listed a s t status doc envs e h =
      let path = "/v1/jobs/pull?node_id=" +++ pl.quote a.node_id in
      let (ok, got) = pulled-200 status doc envs h in
      (
        doc,
        subst (λ n. Said net a s t "GET" path [] n doc) ok
            (coord-Said net a s t "GET" path none status doc e),
        got,
      )

  -- The agent with the flag lowered is the same to the coordinator.
  pull_again-Listed :
      (a b : Agent F) (s t : S) (envs : List JobEnvelope)
      → pull_again net (b, s, some tt) ≡ (a, t, some envs)
      → (Listed b s t envs) × (a ≡ b)
  pull_again-Listed a b s t envs h = elim (Option-cases (pull_call net b s).1) [
    | inl e ↦ absurd (ground (arith, e, h))
    | inr ((status, doc), e) ↦ (
      pull_call-Listed b s t status doc envs (ground (arith, e, h)) (ground (arith, e, h)),
      ground (arith, e, h),
    )
  ]

  registered_again :
      (a b : Agent F) (s t : S) (envs : List JobEnvelope)
      → pull_again net (register net (record a { registered = false }) s) ≡ (b, t, some envs)
      → (v : S) × Accepted net a s v
        × Listed a v t envs
        × (b ≡ record a { registered = true; last_heartbeat = net.monotonic v })
  registered_again a b s t envs h =
      let lowered : Agent F = record a { registered = false } in
      let outcome = register net lowered s in
      elim (Option-cases outcome.2) [
        | inl e ↦ absurd (ground (arith, e, h))
        | inr (u, e) ↦
            let v = outcome.1 in
            let (accepted, raised_flag) =
              register-Accepted net lowered outcome.0 s v (ground (arith, e)) in
            let (listed, same) = pull_again-Listed b outcome.0 v t envs (ground (arith, e, h)) in
            (v, accepted, subst (λ c. Listed c v t envs) raised_flag listed, same ∙ raised_flag)
      ]

  -- A pull that returns envelopes got them from an answer of 200, either to its first call, or to a
  -- second one after a first answer of 404 and a registration of the agent that the coordinator
  -- accepted.
  pub pull-Pulled :
      (a b : Agent F) (s t : S) (envs : List JobEnvelope)
      → pull net a s ≡ (b, t, some envs)
      → Pulled a s b t envs
  unfolding pull
  pull-Pulled a b s t envs h =
      let u = (pull_call net a s).0 in
      let path = "/v1/jobs/pull?node_id=" +++ pl.quote a.node_id in
      elim (Option-cases (pull_call net a s).1) [
        | inl e ↦ absurd (ground (arith, e, h))
        | inr ((status, doc), e) ↦ elim (Bool-cases (nat_beq status 404)) [
          | inr other ↦ inl (
            pull_call-Listed a s t status doc envs (ground (arith, e, other, h))
                (ground (arith, e, other, h)),
            ground (arith, e, other, h),
          )
          | inl lost ↦
              let is_404 : status ≡ 404 = ground (arith, lost) in
              let (v, accepted, listed, flag) =
                registered_again a b u t envs (ground (arith, e, lost, h)) in
              inr (
                u,
                v,
                doc,
                subst (λ n. Said net a s u "GET" path [] n doc) is_404
                    (coord-Said net a s u "GET" path none status doc (ground (arith, e))),
                accepted,
                listed,
                flag,
              )
        ]
      ]
