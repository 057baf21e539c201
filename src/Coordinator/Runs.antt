-- ===== src/Coordinator/Runs.antt =====
-- Promises of MockCoordinator in pygrid/testkit.py that hold over every later run of requests.
pub mod Replays
pub mod Answers
pub mod Retries
pub mod Filing
use nycc_grid.Coordinator.State.{Coordinator}
use nycc_grid.Coordinator.Keeps.{Keeps, Keeps-create_job, Keeps-refl, Keeps-trans}
use nycc_grid.Runtime.{Platform, Runtime}
use nycc_grid.Coordinator.Invariant.Reach.{
  Step, Reach, get_request, post_request, gate_part, create_part, start, after,
}
use nycc_grid.Coordinator.Keeps.Runs.{Keeps-member_gate, Keeps-do_post, Keeps-do_get}

module _ {F : Type 0} ⦃pl : Platform⦄ ⦃rt : Runtime F⦄ where
  Step-Keeps : (s t : Coordinator F) → Step s t → Keeps s t
  Step-Keeps s t (get_request w req fresh) = Keeps-do_get w req s
  Step-Keeps s t (post_request w req fresh) = Keeps-do_post w req s
  Step-Keeps s t (gate_part w req raw fresh) = Keeps-member_gate w req raw s
  Step-Keeps s t (create_part w body fresh) = Keeps-create_job w body s

  pub Reach-Keeps : {s t : Coordinator F} → Reach s t → Keeps s t
  Reach-Keeps {s} start = Keeps-refl s
  Reach-Keeps {s} (after {t = t} {u = u} r st) =
      Keeps-trans s t u (Reach-Keeps r) (Step-Keeps t u st)
