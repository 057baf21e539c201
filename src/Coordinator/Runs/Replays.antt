-- ===== src/Coordinator/Runs/Replays.antt =====
-- A captured submission of a member is worth nothing to a coordinator that has seen it.
use nycc_grid.Base.{arith, ◌≡◌, ◌∙◌, true, none, some}
use nycc_grid.Coordinator.State.{Coordinator, Reply, World}
use nycc_grid.Coordinator.Gate.{member_gate}
use nycc_grid.Coordinator.Runs.{Reach-Keeps}
use nycc_grid.Runtime.{Bytes, Platform, Runtime}
use nycc_grid.Coordinator.Headers.{Request}
use nycc_grid.Json.{Fields, nonempty}
use nycc_grid.Coordinator.Routes.{gated_create}
use nycc_grid.Coordinator.Invariant.Reach.{Reach}
use nycc_grid.Coordinator.Gate.Replay.{member_gate_replay}
use nycc_grid.Coordinator.Keeps.Runs.{Keeps-member_gate}

module _ {F : Type 0} ⦃pl : Platform⦄ ⦃rt : Runtime F⦄ where
  -- Behind a club key, a submission that the gate let through is never let through again: from the
  -- state that the gate leaves, whatever runs, the creation of its own job or not, the same request
  -- is denied by the gate and changes nothing, whatever the clock says then.
  pub member_gate_once :
      (w v : World F) (req : Request) (body : Fields F) (raw : Bytes) (s t : Coordinator F)
      → nonempty s.club_verify_key ≡ true
      → (member_gate w req raw s).1 ≡ none
      → Reach (member_gate w req raw s).0 t
      → (r : Reply F) × (member_gate v req raw t ≡ (t, some r))
        × (gated_create v req body raw t ≡ (t, r))
  unfolding gated_create
  member_gate_once w v req body raw s t key opened run =
      let kept = Reach-Keeps run in
      let (r, denied) =
        member_gate_replay w v req raw s t key opened
          (kept.key_kept ∙ (Keeps-member_gate w req raw s).key_kept) kept.nonces_kept in
      (r, denied, ground (arith, denied))
