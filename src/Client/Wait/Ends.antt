-- ===== src/Client/Wait/Ends.antt =====
-- The polling of pygrid/client.py ends, and what its outcomes mean.
use mathlib.Core.Path.{subst}
use nycc_grid.Base.{
  Option-cases, is_some, ℕ, zero, suc, ◌≤◌, ◌<◌, String, ◌≡◌, refl, inl, inr, Bool, true, false,
  none, some, [], ◌∷◌, arith,
}
use nycc_grid.Json.{Fields, get_field, is_str}
use nycc_grid.Runtime.{Bytes, Platform, Runtime}
use nycc_grid.Crypto.{◌+++◌}
use nycc_grid.Net.{Answer, Net, answered, unreachable, broken}
use nycc_grid.Client.Wait.Polled.{Polled, status-Polled}
use nycc_grid.Client.Setup.{GridClient}
use nycc_grid.Client.Calls.{
  Error, Attempt, Attempt-cases, document_of, reply_document, request_of, call, status,
  coordinator_error, job_failed, timeout_error, key_error, other_error, returned, raised,
}
use nycc_grid.Client.Wait.{Round-cases, pause, round_of, poll, await_until, ends, waits}

module _ {F S : Type 0} ⦃pl : Platform⦄ ⦃rt : Runtime F⦄ (net : Net F S) where
  -- What an outcome says of the last poll, from the state `v` to the state `t`: of a document, that
  -- the coordinator gave it there for the job, as done; of a failed job, that it gave one as failed;
  -- of the timeout of the wait itself, that it gave one that is neither and no time remained; of any
  -- other exception, that the call of that poll raised it.
  abbrev pub Verdict : GridClient F → S → S → String → F → Attempt (Fields F) → Type 0
  Verdict c v t job_id deadline (returned doc) =
      Polled net c v t job_id doc × (is_str (get_field doc "status") "done" ≡ true)
  Verdict c v t job_id deadline (raised (job_failed j)) =
      (doc : Fields F) × Polled net c v t job_id doc
      × (is_str (get_field doc "status") "failed" ≡ true)
  Verdict c v t job_id deadline (raised (timeout_error j)) =
      (doc : Fields F) × Polled net c v t job_id doc
      × (is_str (get_field doc "status") "done" ≡ false)
      × (is_str (get_field doc "status") "failed" ≡ false)
      × (rt.le (rt.sub deadline (net.monotonic t)) rt.zero ≡ true)
  Verdict c v t job_id deadline (raised e) = status net c v job_id ≡ (t, raised e)

  -- The exceptions of `_call`.
  abbrev is_call_error : Attempt (Fields F) → Bool
  is_call_error (raised (timeout_error _)) = false
  is_call_error (raised (job_failed _)) = false
  is_call_error _ = true

  document_of_error :
      (url : String) (code : ℕ) (raw : Bytes) → is_call_error (document_of url code raw) ≡ true
  unfolding document_of
  document_of_error url code [] = refl
  document_of_error url code (b ∷ raw) = ground arith

  reply_document_error :
      (url : String) (reply : Answer) → is_call_error (reply_document url reply) ≡ true
  unfolding reply_document
  reply_document_error url unreachable = refl
  reply_document_error url broken = refl
  reply_document_error url (answered (code, raw)) = ground (arith, document_of_error url code raw)

  status_error :
      (c : GridClient F) (s : S) (job_id : String) → is_call_error (status net c s job_id).1 ≡ true
  unfolding status call
  status_error c s job_id =
      let path = "/v1/jobs/" +++ pl.quote job_id in
      elim (Option-cases (request_of c "GET" path none false (net.seconds s) (net.nonce s))) [
        | inl e ↦ ground (arith, e)
        | inr (request, e) ↦
            ground
              (arith, e, reply_document_error (c.coordinator_url +++ path) (net.answer s request).1)
      ]

  -- An exception of the call ends the round as it is.
  raised-Verdict :
      (c : GridClient F) (v t : S) (job_id : String) (deadline : F) (e : Error)
      → is_call_error (raised e) ≡ true
      → status net c v job_id ≡ (t, raised e)
      → Verdict c v t job_id deadline (raised e)
  raised-Verdict c v t job_id deadline (coordinator_error code url) h told = told
  raised-Verdict c v t job_id deadline (key_error j) h told = told
  raised-Verdict c v t job_id deadline other_error h told = told
  raised-Verdict c v t job_id deadline (job_failed j) h told = absurd (ground (arith, h))
  raised-Verdict c v t job_id deadline (timeout_error j) h told = absurd (ground (arith, h))

  raised-ends :
      (job_id : String) (e : Error) (remaining : F) (outcome : Attempt (Fields F))
      → round_of job_id (raised e) remaining ≡ ends outcome
      → raised e ≡ outcome
  unfolding round_of
  raised-ends job_id e remaining outcome h = ground (arith, h)

  returned-Verdict :
      (c : GridClient F) (v t : S) (job_id : String) (deadline : F) (doc : Fields F)
      (outcome : Attempt (Fields F))
      → Polled net c v t job_id doc
      → round_of job_id (returned doc) (rt.sub deadline (net.monotonic t)) ≡ ends outcome
      → Verdict c v t job_id deadline outcome
  unfolding round_of
  returned-Verdict c v t job_id deadline doc (returned found) polled h =
      let same : doc ≡ found = ground (arith, h) in
      (subst (λ d. Polled net c v t job_id d) same polled, ground (arith, h))
  returned-Verdict c v t job_id deadline doc (raised (job_failed j)) polled h =
      (doc, polled, ground (arith, h))
  returned-Verdict c v t job_id deadline doc (raised (timeout_error j)) polled h =
      (doc, polled, ground (arith, h), ground (arith, h), ground (arith, h))
  returned-Verdict c v t job_id deadline doc (raised (coordinator_error code url)) polled h =
      absurd (ground (arith, h))
  returned-Verdict c v t job_id deadline doc (raised (key_error j)) polled h =
      absurd (ground (arith, h))
  returned-Verdict c v t job_id deadline doc (raised other_error) polled h =
      absurd (ground (arith, h))

  poll-Verdict :
      (c : GridClient F) (v : S) (job_id : String) (deadline : F) (outcome : Attempt (Fields F))
      → (poll net c v job_id deadline).1 ≡ ends outcome
      → Verdict c v (poll net c v job_id deadline).0 job_id deadline outcome
  unfolding poll
  poll-Verdict c v job_id deadline outcome e =
      let t = (status net c v job_id).0 in
      elim (Attempt-cases (status net c v job_id).1) [
        | inl (x, d) ↦
            let same : raised x ≡ outcome =
              raised-ends job_id x (rt.sub deadline (net.monotonic t)) outcome
                (ground (arith, d, e)) in
            subst (λ o. Verdict c v t job_id deadline o) same
              (raised-Verdict c v t job_id deadline x (ground (arith, d, status_error c v job_id))
                (ground (arith, d)))
        | inr (doc, d) ↦
            returned-Verdict c v t job_id deadline doc outcome (status-Polled net c v job_id doc d)
              (rw (← d) e)
      ]

  -- A wait that ends has polled at least once. One that returns a document got it, as that of a job
  -- that is done, from the coordinator's answer to its last poll; one that raises for a failed job
  -- was told so there; and one that raises the TimeoutError of the wait itself was told there that
  -- the job is neither, and no time remained by the clock. Any other
  -- exception is that of the call of its last poll, which may raise at any time.
  pub await_until-Verdict :
      (rounds : ℕ) (c : GridClient F) (s t : S) (job_id : String) (deadline : F)
      (outcome : Attempt (Fields F))
      → await_until net rounds c s job_id deadline ≡ (t, some outcome)
      → (v : S) × Verdict c v t job_id deadline outcome
  unfolding await_until
  await_until-Verdict zero c s t job_id deadline outcome e = absurd (ground (arith, e))
  await_until-Verdict (suc rounds) c s t job_id deadline outcome e =
      elim (Round-cases (poll net c s job_id deadline).1) [
        | inl (o, d) ↦
            let last : (poll net c s job_id deadline).0 ≡ t = ground (arith, d, e) in
            (
              s,
              subst (λ u. Verdict c s u job_id deadline outcome) last
                  (poll-Verdict c s job_id deadline outcome (ground (arith, d, e))),
            )
        | inr (seconds, d) ↦
            await_until-Verdict rounds c (net.sleep seconds (poll net c s job_id deadline).0) t
              job_id deadline outcome (ground (arith, d, e))
      ]

  -- The time that the poll after the pause leaves.
  abbrev pub time_left : GridClient F → S → String → F → F
  time_left c s job_id deadline = rt.sub deadline (net.monotonic (status net c s job_id).0)

  poll-waits :
      (c : GridClient F) (s : S) (job_id : String) (deadline seconds : F)
      → (poll net c s job_id deadline).1 ≡ waits seconds
      → (rt.le (time_left c s job_id deadline) rt.zero ≡ false)
        × (seconds ≡ pause (time_left c s job_id deadline))
  unfolding poll round_of
  poll-waits c s job_id deadline seconds e = ground (arith, Attempt-cases (status net c s job_id).1)

  -- The clock of the outside, in ticks, is nearer to the deadline at each poll than at the one
  -- before, as long as time remains.
  abbrev pub IsNearing : (F → ℕ) → GridClient F → String → F → Type 0
  IsNearing ticks c job_id deadline =
      (t : S)
      → rt.le (time_left c t job_id deadline) rt.zero ≡ false
      → ticks (
          time_left c (net.sleep (pause (time_left c t job_id deadline)) (status net c t job_id).0)
            job_id deadline)
        < ticks (time_left c t job_id deadline)

  poll-nearer :
      (ticks : F → ℕ) (rounds : ℕ) (c : GridClient F) (s : S) (job_id : String)
      (deadline seconds : F)
      → IsNearing ticks c job_id deadline
      → ticks (time_left c s job_id deadline) < suc rounds
      → (poll net c s job_id deadline).1 ≡ waits seconds
      → ticks (time_left c (net.sleep seconds (poll net c s job_id deadline).0) job_id deadline)
        < rounds
  unfolding poll
  poll-nearer ticks rounds c s job_id deadline seconds nearer h e =
      let (left, paused) = poll-waits c s job_id deadline seconds e in
      rw paused (omega (arith, nearer s left, h))

  -- If the clock is nearer to the deadline at each poll than at the one before, as long as time
  -- remains, then the wait ends, in more rounds than the ticks that the first poll leaves, and in
  -- any greater number of rounds with the same outcome.
  pub await_until_ends :
      (ticks : F → ℕ) (rounds more : ℕ) (c : GridClient F) (s : S) (job_id : String) (deadline : F)
      → IsNearing ticks c job_id deadline
      → ticks (time_left c s job_id deadline) < rounds
      → rounds ≤ more
      → (is_some (await_until net rounds c s job_id deadline).1 ≡ true)
        × (await_until net more c s job_id deadline ≡ await_until net rounds c s job_id deadline)
  unfolding await_until
  await_until_ends ticks zero more c s job_id deadline nearer h le = absurd (omega arith)
  await_until_ends ticks (suc rounds) zero c s job_id deadline nearer h le = absurd (omega arith)
  await_until_ends ticks (suc rounds) (suc more) c s job_id deadline nearer h le =
      elim (Round-cases (poll net c s job_id deadline).1) [
        | inl (o, d) ↦ ground (arith, d)
        | inr (seconds, d) ↦ ground (
          arith,
          d,
          await_until_ends ticks rounds more c (net.sleep seconds (poll net c s job_id deadline).0)
              job_id deadline nearer
              (poll-nearer ticks rounds c s job_id deadline seconds nearer h d) (omega arith),
        )
      ]
