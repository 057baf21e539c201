-- ===== src/Node.antt =====
-- NodeAgent of pygrid/node.py: the meter, the receipt, and the calls to the coordinator.
pub mod Calls
pub mod Said
pub mod Registered
pub mod Work
pub mod Rounds
pub mod Answered
pub mod Keys
use mathlib.Core.Option
use nycc_grid.Base.{
  nat_beq, if◌then◌else◌, ℕ, ◌+◌, String, Bool, not, ◌||◌, Option, none, some, List, [], ◌∷◌,
}
use nycc_grid.Base.Int.{ℤ, is_nonzero}
use nycc_grid.Json.{Fields, fields, nonempty, int, float, str, obj}
use nycc_grid.Runtime.{Bytes, Platform, Runtime}
use nycc_grid.Crypto.{b64e, sign, canonical_json}

-- The fields of the agent that its operations read or change.
pub record Agent (F : Type 0) : Type 0 where
  pub coordinator_url : String
  pub engine_url : String
  pub node_id : String
  pub box_pub_b64 : String
  pub box_prv_b64 : String
  pub verify_b64 : String
  pub sign_b64 : String
  pub claimed_wattage : F
  pub neighborhood : String
  pub wattage : F
  pub watts_source : String
  pub registered : Bool
  pub last_heartbeat : F

module _ {F : Type 0} ⦃pl : Platform⦄ ⦃rt : Runtime F⦄ where
  -- The loop of `measure` in pygrid/watts.py over the lines: the total and the lines counted.
  unfoldable pub meter_total : List String → F × ℕ → Option (F × ℕ)
  meter_total [] acc = some acc
  meter_total (raw ∷ lines) (total, seen) =
      let line = pl.strip raw in
      let skipped = meter_total lines (total, seen) in
      if not (nonempty line) then skipped else elim (rt.float_of_str line) [
        | none ↦ none
        | some watts ↦
            let counted = meter_total lines (rt.add total watts, seen + 1) in
            if not (rt.is_finite watts) || rt.lt watts rt.zero then none else counted
      ]

  -- `measure`, on the exit code and the output of the meter; none where there is no meter, or it
  -- did not run to its end in time.
  unfoldable pub measure : Option (ℤ × String) → Option F
  measure none = none
  measure (some (code, stdout)) =
      if is_nonzero code then none else elim (meter_total (pl.splitlines stdout) (rt.zero, 0)) [
        | none ↦ none
        | some (total, seen) ↦ if nat_beq seen 0 then none else some total
      ]

  unfoldable pub measure_watts : Option (ℤ × String) → Agent F → Agent F
  measure_watts meter a = elim (measure meter) [
    | none ↦ record a { wattage = a.claimed_wattage; watts_source = "claimed" }
    | some reading ↦ record a { wattage = rt.round1 reading; watts_source = "measured" }
  ]

  abbrev pub receipt_fields : Agent F → String → String → String → ℤ → Bytes → Bytes → Fields F
  receipt_fields a job_id started finished duration_ms request_raw result_raw = fields (
      ("job_id", str job_id)
      ∷ ("node_id", str a.node_id)
      ∷ ("started", str started)
      ∷ ("finished", str finished)
      ∷ ("duration_ms", int duration_ms)
      ∷ ("watts", float a.wattage)
      ∷ ("watts_source", str a.watts_source)
      ∷ ("request_sha256", str (pl.sha256_hex request_raw))
      ∷ ("result_sha256", str (pl.sha256_hex result_raw))
      ∷ [])

  -- `build_receipt`; none where signing raises.
  unfoldable pub build_receipt :
      Agent F → String → String → String → ℤ → Bytes → Bytes → Option (Fields F)
  build_receipt a job_id started finished duration_ms request_raw result_raw =
      let receipt = receipt_fields a job_id started finished duration_ms request_raw result_raw in
      Option.map (λ sig. fields (("receipt", obj receipt) ∷ ("sig", str (b64e sig)) ∷ []))
        (sign a.sign_b64 (canonical_json (obj receipt)))
