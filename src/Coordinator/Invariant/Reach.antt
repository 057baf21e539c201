-- ===== src/Coordinator/Invariant/Reach.antt =====
-- Runs of MockCoordinator of pygrid/testkit.py: requests, and parts of them, in the order in which they
-- take the lock.
use nycc_grid.Base.{String, refl, Option, arith}
use nycc_grid.Coordinator.State.{Coordinator, init, World, queued_count}
use nycc_grid.Coordinator.Invariant.{Inv, IsFresh}
use nycc_grid.Coordinator.Effect.{Effect, Effect-create_job}
use nycc_grid.Runtime.{Bytes, Platform, Runtime}
use nycc_grid.Coordinator.Invariant.Jobs.{IsKeyed-Effect, All-IsSound-Effect, numbered-Effect}
use nycc_grid.Coordinator.Headers.{Request}
use nycc_grid.Coordinator.Invariant.Counts.{done-Effect, queue-Effect}
use nycc_grid.Coordinator.Routes.{do_post, do_get}
use nycc_grid.Coordinator.Gate.{member_gate}
use nycc_grid.Coordinator.Submit.{create_job}
use nycc_grid.Json.{Fields}
use nycc_grid.Coordinator.Effect.Routes.{Effect-member_gate, Effect-do_post, Effect-do_get}

module _ {F : Type 0} ⦃pl : Platform⦄ ⦃rt : Runtime F⦄ where
  -- One request, in a world that offers a uuid which no stored job has; or one of the two parts of a
  -- submission, the gate and the creation of the job, between which other requests may take the lock.
  pub data Step (s : Coordinator F) : Coordinator F → Type 0 where
    get_request : (w : World F) (req : Request) → IsFresh w s → Step s (do_get w req s).0
    post_request : (w : World F) (req : Request) → IsFresh w s → Step s (do_post w req s).0
    gate_part :
        (w : World F) (req : Request) (raw : Bytes)
        → IsFresh w s
        → Step s (member_gate w req raw s).0
    create_part : (w : World F) (body : Fields F) → IsFresh w s → Step s (create_job w body s).0

  pub data Reach (s : Coordinator F) : Coordinator F → Type 0 where
    start : Reach s s
    after : {t u : Coordinator F} → Reach s t → Step t u → Reach s u

  pub Inv-Effect : (w : World F) (s t : Coordinator F) → Effect w s t → IsFresh w s → Inv s → Inv t
  Inv-Effect w s t e fresh h = record {
    keyed = IsKeyed-Effect w s t e h.keyed;
    sound = All-IsSound-Effect w s t e h.sound;
    done_counted = done-Effect w s t e fresh h.done_counted;
    queue_capped = λ n. queue-Effect n w s t e fresh (h.queue_capped n);
    numbered = numbered-Effect w s t e h.numbered;
  }

  Inv-init : (key : Option String) → Inv (init {F = F} key)
  unfolding init queued_count
  Inv-init key = record {
    keyed = tt;
    sound = tt;
    done_counted = refl;
    queue_capped = λ n. omega arith;
    numbered = tt;
  }

  -- A step, whatever it asks and however it is refused, has one of the effects of requests.
  pub Step-Effect :
      (s t : Coordinator F) → Step s t → Inv s → (w : World F) × IsFresh w s × Effect w s t
  Step-Effect s t (get_request w req fresh) h = (w, fresh, Effect-do_get w req s h.keyed)
  Step-Effect s t (post_request w req fresh) h = (w, fresh, Effect-do_post w req s h.keyed)
  Step-Effect s t (gate_part w req raw fresh) h = (w, fresh, Effect-member_gate w req raw s)
  Step-Effect s t (create_part w body fresh) h = (w, fresh, Effect-create_job w s body)

  -- A step keeps the invariant.
  pub Step-Inv : (s t : Coordinator F) → Step s t → Inv s → Inv t
  Step-Inv s t st h = let (w, fresh, e) = Step-Effect s t st h in Inv-Effect w s t e fresh h

  Reach-Inv : {s t : Coordinator F} → Inv s → Reach s t → Inv t
  Reach-Inv h start = h
  Reach-Inv h (after {t = t} {u = u} r st) = Step-Inv t u st (Reach-Inv h r)

  -- Every state that requests make of a new coordinator satisfies the invariant: each job is
  -- stored once, under its id, and is sound; the jobs counted as done are those that are done; no
  -- node has more than MAX_QUEUED_PER_NODE jobs that wait or run.
  pub reachable-Inv : (key : Option String) (t : Coordinator F) → Reach (init key) t → Inv t
  reachable-Inv key t r = Reach-Inv (Inv-init key) r
