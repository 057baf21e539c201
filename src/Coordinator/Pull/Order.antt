-- ===== src/Coordinator/Pull/Order.antt =====
-- Which jobs `_pull` of pygrid/testkit.py hands out, and in which order.
use mathlib.Core.List.{append-nil, append_assoc}
use nycc_grid.Base.{
  ltb, leb, Bool-cases, length, take, keep, length-append, ◌==◌, ℕ, zero, suc, ◌-◌, ◌<◌, String,
  ◌≡◌, refl, sym, ap, ◌∙◌, ◌≢◌, ◌⊎◌, inl, inr, Bool, true, false, ◌&&◌, ◌||◌, none, List, [], ◌∷◌,
  ◌++◌, map, arith, nat_eq, string_eq, pair_eq,
}
use nycc_grid.Coordinator.State.{
  pull_max, max_attempts, Job, Coordinator, World, is_queued, is_running, envelope,
}
use nycc_grid.Coordinator.Pull.{
  sort_by_seq, Action, pull_action, delivered_job, visit, pull_loop, pull_jobs, skip, fail, deliver,
}
use nycc_grid.Protocol.{JobEnvelope}
use nycc_grid.Base.Dict.{Dict, values}
use nycc_grid.Coordinator.Effect.{touch-jobs}

Action-cases : (a : Action) → (a ≡ deliver) ⊎ ((a ≡ skip) ⊎ (a ≡ fail))
Action-cases deliver = inl refl
Action-cases skip = inr (inl refl)
Action-cases fail = inr (inr refl)

take_nil : (n : ℕ) → take {A = JobEnvelope} n [] ≡ []
take_nil zero = refl
take_nil (suc n) = refl

take_full : (n : ℕ) (xs : List JobEnvelope) → n ≡ 0 → take n xs ≡ []
take_full zero xs h = refl
take_full (suc n) xs h = absurd (omega arith)

take_suc :
    (n : ℕ) (x : JobEnvelope) (xs : List JobEnvelope)
    → 0 < n
    → take n (x ∷ xs) ≡ x ∷ take (n - 1) xs
take_suc zero x xs h = absurd (omega arith)
take_suc (suc n) x xs h = ap (λ m. x ∷ take m xs) (omega arith)

-- Taking the head from a list with room for it.
take_after :
    (out : List JobEnvelope) (x : JobEnvelope) (xs : List JobEnvelope)
    → length out < pull_max
    → (out ++ x ∷ []) ++ take (pull_max - length (out ++ x ∷ [])) xs
      ≡ out ++ take (pull_max - length out) (x ∷ xs)
take_after out x xs room =
    let less : pull_max - length (out ++ x ∷ []) ≡ pull_max - length out - 1 =
      omega (arith, length-append {0} out (x ∷ [])) in
    append_assoc out (x ∷ []) (take (pull_max - length (out ++ x ∷ [])) xs)
    ∙ ap (λ m. out ++ x ∷ take m xs) less
    ∙ ap (λ ys. out ++ ys) (sym (take_suc (pull_max - length out) x xs (omega arith)))

module _ {F : Type 0} where
  -- The jobs that a pull by the node may hand out at that time.
  abbrev pub is_due : String → ℕ → Job F → Bool
  is_due node_id now_ms job =
      job.to_node == node_id
      && (is_queued job.status
          || (is_running job.status
              && (leb job.lease_until_ms now_ms && ltb job.attempts max_attempts)))

  abbrev pub handed : ℕ → Job F → JobEnvelope
  handed now_ms job = envelope (delivered_job now_ms job)

  is_due_of_deliver :
      (node_id : String) (now_ms : ℕ) (j : Job F)
      → pull_action node_id now_ms j ≡ deliver
      → is_due node_id now_ms j ≡ true
  unfolding pull_action
  is_due_of_deliver node_id now_ms j h = ground arith

  not_is_due_of_other :
      (node_id : String) (now_ms : ℕ) (j : Job F)
      → pull_action node_id now_ms j ≢ deliver
      → is_due node_id now_ms j ≡ false
  unfolding pull_action
  not_is_due_of_other node_id now_ms j h = ground arith

  pull_loop-take :
      (node_id : String) (now_ms : ℕ) (js : List (Job F)) (out : List JobEnvelope)
      (d : Dict String (Job F))
      → (pull_loop node_id now_ms js (out, d)).0
        ≡ out
          ++ take (pull_max - length out) (map (handed now_ms) (keep (is_due node_id now_ms) js))
  unfolding pull_loop visit
  pull_loop-take node_id now_ms [] out d =
      sym (ap (λ ys. out ++ ys) (take_nil (pull_max - length out)) ∙ append-nil out)
  pull_loop-take node_id now_ms (j ∷ js) out d = elim (Bool-cases (leb pull_max (length out))) [
    | inl full ↦ rw full (
        sym (
          ap (λ ys. out ++ ys) (take_full (pull_max - length out) _ (ground (arith, full)))
          ∙ append-nil out))
    | inr room ↦ elim (Action-cases (pull_action node_id now_ms j)) [
      | inl a ↦
          rw (room, is_due_of_deliver node_id now_ms j a)
            (rw (a, visit)
              (pull_loop-take node_id now_ms js (out ++ handed now_ms j ∷ []) _
                ∙ take_after out (handed now_ms j) _ (ground (arith, room))))
      | inr (inl a) ↦
          rw (room, not_is_due_of_other node_id now_ms j (λ e. cc))
            (rw (a, visit) (pull_loop-take node_id now_ms js out d))
      | inr (inr a) ↦
          rw (room, not_is_due_of_other node_id now_ms j (λ e. cc))
            (rw (a, visit) (pull_loop-take node_id now_ms js out _))
    ]
  ]

  -- A pull hands out the first PULL_MAX of the node's jobs that are due, in the order in which
  -- they were submitted: those that wait, and those that run on a lease that has ended with
  -- attempts left. Each envelope states that the job is running.
  pub pull_jobs-take :
      (w : World F) (node_id : String) (s : Coordinator F)
      → (pull_jobs w node_id s).1
        ≡ take pull_max
            (map (handed w.now_ms) (keep (is_due node_id w.now_ms) (sort_by_seq (values s.jobs))))
  unfolding pull_jobs
  pull_jobs-take w node_id s =
      rw (touch-jobs w.time node_id none none s)
        (pull_loop-take node_id w.now_ms (sort_by_seq (values s.jobs)) [] s.jobs)
