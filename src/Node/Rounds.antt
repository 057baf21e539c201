-- ===== src/Node/Rounds.antt =====
-- What a pass of NodeAgent in pygrid/node.py leaves: the registration, and the jobs around one that
-- raises.
use nycc_grid.Base.{
  Bool-cases, Option-cases, is_some, length, ℕ, ◌+◌, ◌≤◌, ◌≡◌, ap, ◌∙◌, ◌⊎◌, inl, inr, true, none,
  some, List, [], ◌∷◌, ◌++◌, arith,
}
use nycc_grid.Net.{Net}
use nycc_grid.Runtime.{Platform, Runtime}
use nycc_grid.Node.{Agent}
use nycc_grid.Node.Work.{
  process, process_all, beat_once, heartbeat_if_due, register_or_beat, pull_and_process, run_once,
}
use nycc_grid.Node.Calls.{heartbeat, pull}
use nycc_grid.Node.Said.{Accepted, register-Accepted}
use nycc_grid.Node.Registered.{register-registered, heartbeat-registered, Pulled, pull-Pulled}
use nycc_grid.Protocol.{JobEnvelope}

module _ {F S : Type 0} ⦃pl : Platform⦄ ⦃rt : Runtime F⦄ (net : Net F S) where
  beat_once-registered :
      (a : Agent F) (s : S)
      → a.registered ≡ true
      → is_some (beat_once net (heartbeat net a s)).2 ≡ true
      → (beat_once net (heartbeat net a s)).0.registered ≡ true
  beat_once-registered a s r h = elim (Option-cases (heartbeat net a s).2) [
    | inl e ↦ absurd (ground (arith, e, h))
    | inr (v, e) ↦ ground (arith, e, heartbeat-registered net a s r)
  ]

  heartbeat_if_due-registered :
      (a : Agent F) (s : S)
      → a.registered ≡ true
      → is_some (heartbeat_if_due net a s).2 ≡ true
      → (heartbeat_if_due net a s).0.registered ≡ true
  unfolding heartbeat_if_due
  heartbeat_if_due-registered a s r h =
      elim (Bool-cases (rt.le (rt.literal 30) (rt.sub (net.monotonic s) a.last_heartbeat))) [
        | inl due ↦ rw due (beat_once-registered a s r (ground (arith, due, h)))
        | inr early ↦ rw early r
      ]

  register_or_beat-registered :
      (a : Agent F) (s : S)
      → is_some (register_or_beat net a s).2 ≡ true
      → (register_or_beat net a s).0.registered ≡ true
  register_or_beat-registered a s h = elim (Bool-cases a.registered) [
    | inl known ↦ ground (arith, known, h, heartbeat_if_due-registered a s known)
    | inr unknown ↦ ground (arith, unknown, h, register-registered net a s)
  ]

  -- The first step of a pass, if it registers the agent.
  first_step-Accepted :
      (a b : Agent F) (s t : S)
      → register_or_beat net a s ≡ (b, t, some tt)
      → (a.registered ≡ true) ⊎ Accepted net a s t
  first_step-Accepted a b s t h = elim (Bool-cases a.registered) [
    | inl known ↦ inl known
    | inr unknown ↦ inr ((register-Accepted net a b s t (ground (arith, unknown, h))).0)
  ]

  Pulled-registered :
      (a b : Agent F) (s t : S) (envs : List JobEnvelope)
      → a.registered ≡ true
      → Pulled net a s b t envs
      → b.registered ≡ true
  Pulled-registered a b s t envs r (inl (listed, same)) = ap (λ c. c.registered) same ∙ r
  Pulled-registered a b s t envs r (inr (u, v, doc, lost, accepted, listed, same)) =
      ap (λ c. c.registered) same

  -- A pass that returned: the agent had been registered, or its first call was a registration that
  -- the coordinator accepted; from there its pull was answered; and it counts as registered now.
  pub record Passed (a : Agent F) (s : S) (b : Agent F) : Type 0 where
    pub ready : Agent F
    pub began : S
    pub first : (a.registered ≡ true) ⊎ Accepted net a s began
    pub envs : List JobEnvelope
    pub finished : S
    pub pull_done : Pulled net ready began b finished envs
    pub registered_now : b.registered ≡ true

  pull_and_process-Pulled :
      (a b : Agent F) (s t : S) (completed : ℕ)
      → pull_and_process net (a, s, some tt) ≡ (b, t, some completed)
      → (envs : List JobEnvelope) × (u : S) × Pulled net a s b u envs
  pull_and_process-Pulled a b s t completed h = elim (Option-cases (pull net a s).2) [
    | inl e ↦ absurd (ground (arith, e, h))
    | inr (envs, e) ↦
        (envs, (pull net a s).1, pull-Pulled net a b s (pull net a s).1 envs (ground (arith, e, h)))
  ]

  -- A pass that returns has registered the agent first, if it was not: the coordinator accepted the
  -- registration with 200 or 201. Its pull got an answer of 200, to a first call or, after a 404 and
  -- another registration that was accepted, to a second one. And the agent counts as registered.
  pub run_once-Passed :
      (a b : Agent F) (s t : S) (completed : ℕ)
      → run_once net a s ≡ (b, t, some completed)
      → Passed a s b
  unfolding run_once
  run_once-Passed a b s t completed h =
      let step = register_or_beat net a s in
      elim (Option-cases step.2) [
        | inl e ↦ absurd (ground (arith, e, h))
        | inr (v, e) ↦
            let (envs, u, got) =
              pull_and_process-Pulled step.0 b step.1 t completed (ground (arith, e, h)) in
            record {
              ready = step.0;
              began = step.1;
              first = first_step-Accepted a step.0 s step.1 (ground (arith, e));
              envs = envs;
              finished = u;
              pull_done = got;
              registered_now =
                  Pulled-registered step.0 b step.1 u envs
                    (register_or_beat-registered a s (ground (arith, e))) got;
            }
      ]

  -- A pass completes at most as many jobs as it pulled.
  pub process_all-le :
      (a : Agent F) (s : S) (envs : List JobEnvelope) → (process_all net a s envs).1 ≤ length envs
  unfolding process_all
  process_all-le a s [] = omega arith
  process_all-le a s (env ∷ envs) = ground (arith, process_all-le a (process net a s env).0 envs)

  -- The jobs before and behind one that raises are processed as they are without it, from the
  -- outside as it stands then, and count as they do then.
  pub process_all_poison :
      (a : Agent F) (s : S) (before behind : List JobEnvelope) (env : JobEnvelope)
      → (process net a (process_all net a s before).0 env).1 ≡ none
      → process_all net a s (before ++ env ∷ behind) ≡ (
          let t = (process net a (process_all net a s before).0 env).0 in
          (
            (process_all net a t behind).0,
            (process_all net a s before).1 + (process_all net a t behind).1,
          ))
  unfolding process_all
  process_all_poison a s [] behind env h = ground (arith, h)
  process_all_poison a s (first ∷ before) behind env h =
      ground (arith, process_all_poison a (process net a s first).0 before behind env h)
