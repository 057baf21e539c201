-- ===== src/Coordinator/Runs/Filing.antt =====
-- The node table along runs of the coordinator of pygrid/testkit.py.
use nycc_grid.Base.{String, Option}
use nycc_grid.Runtime.{Platform, Runtime}
use nycc_grid.Coordinator.State.{Coordinator, init}
use nycc_grid.Coordinator.Filed.{IsFiled}
use nycc_grid.Coordinator.Invariant.Reach.{Reach}
use nycc_grid.Coordinator.Runs.{Reach-Keeps}

module _ {F : Type 0} ⦃pl : Platform⦄ ⦃rt : Runtime F⦄ where
  -- In every state that requests make of a new coordinator, each node is filed once, under its own
  -- id, which is not empty.
  pub reachable-IsFiled :
      (key : Option String) (t : Coordinator F) → Reach (init key) t → IsFiled t.nodes
  unfolding init
  reachable-IsFiled key t r = (Reach-Keeps r).filing_kept tt
