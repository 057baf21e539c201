-- ===== src/Client/Wait.antt =====
-- `_await_done` of GridClient in pygrid/client.py: the polling of a job until it ends or the
-- deadline has passed.
pub mod Polled
pub mod Ends
use nycc_grid.Base.{
  if◌then◌else◌, ℕ, zero, suc, String, ◌≡◌, refl, ◌⊎◌, inl, inr, Option, none, some,
}
use nycc_grid.Json.{Fields, get_field, is_str}
use nycc_grid.Runtime.{Platform, Runtime}
use nycc_grid.Net.{Net}
use nycc_grid.Client.Setup.{GridClient}
use nycc_grid.Client.Calls.{Attempt, status, job_failed, timeout_error, returned, raised}

-- What a round of the loop comes to.
pub data Round (F : Type 0) : Type 0 where
  ends : Attempt (Fields F) → Round F
  waits : F → Round F

pub Round-cases :
    {F : Type 0} (r : Round F)
    → ((o : Attempt (Fields F)) × (r ≡ ends o)) ⊎ ((seconds : F) × (r ≡ waits seconds))
Round-cases (ends o) = inl (o, refl)
Round-cases (waits seconds) = inr (seconds, refl)

module _ {F : Type 0} ⦃rt : Runtime F⦄ where
  -- `min(POLL_INTERVAL_S, remaining)`
  abbrev pub pause : F → F
  pause remaining = if rt.lt remaining rt.quarter then remaining else rt.quarter

  -- The decisions of a round: what the poll returned, and the time that remains.
  unfoldable pub round_of : String → Attempt (Fields F) → F → Round F
  round_of job_id (raised e) remaining = ends (raised e)
  round_of job_id (returned doc) remaining =
      if is_str (get_field doc "status") "done"
      then ends (returned doc)
      else if is_str (get_field doc "status") "failed"
      then ends (raised (job_failed job_id))
      else if rt.le remaining rt.zero
      then ends (raised (timeout_error job_id))
      else waits (pause remaining)

module _ {F S : Type 0} ⦃pl : Platform⦄ ⦃rt : Runtime F⦄ (net : Net F S) where
  -- One round from a state: the poll, and the decision by the clock behind it.
  unfoldable pub poll : GridClient F → S → String → F → S × Round F
  poll c s job_id deadline =
      let (t, got) = status net c s job_id in
      (t, round_of job_id got (rt.sub deadline (net.monotonic t)))

  -- The loop, for at most the given rounds; none where they are used up.
  unfoldable pub await_until : ℕ → GridClient F → S → String → F → S × Option (Attempt (Fields F))
  await_until zero c s job_id deadline = (s, none)
  await_until (suc rounds) c s job_id deadline =
      let (t, decision) = poll c s job_id deadline in
      elim decision [
        | ends outcome ↦ (t, some outcome)
        | waits seconds ↦ await_until rounds c (net.sleep seconds t) job_id deadline
      ]

  unfoldable pub await_done : ℕ → GridClient F → S → String → F → S × Option (Attempt (Fields F))
  await_done rounds c s job_id timeout =
      await_until rounds c s job_id (rt.add (net.monotonic s) timeout)
