-- ===== src/Protocol/RoundTrip.antt =====
-- The dict forms of the records of pygrid/protocol.py, there and back.
use nycc_grid.Base.{◌≡◌, refl, ◌⊎◌, true, some, arith}
use nycc_grid.Json.{nonempty}
use nycc_grid.Runtime.{Runtime}
use nycc_grid.Protocol.{
  Status, status_name, parse_status, NodeInfo, JobEnvelope, NodeInfo_from_dict,
  JobEnvelope_from_dict, NodeInfo_to_dict, JobEnvelope_to_dict, queued, running, done, failed,
}

parse_status-status_name : (s : Status) → parse_status (status_name s) ≡ some s
parse_status-status_name queued = refl
parse_status-status_name running = refl
parse_status-status_name done = refl
parse_status-status_name failed = refl

nonempty-status_name : (s : Status) → nonempty (status_name s) ≡ true
nonempty-status_name queued = refl
nonempty-status_name running = refl
nonempty-status_name done = refl
nonempty-status_name failed = refl

module _ (F : Type 0) ⦃rt : Runtime F⦄ where
  -- Every envelope survives `to_dict` followed by `from_dict`.
  pub JobEnvelope_round_trip :
      (j : JobEnvelope) → JobEnvelope_from_dict (JobEnvelope_to_dict {F = F} j) ≡ some j
  unfolding JobEnvelope_from_dict JobEnvelope_to_dict
  JobEnvelope_round_trip j =
      ground (arith, parse_status-status_name j.status, nonempty-status_name j.status)

-- A node record survives `to_dict` followed by `from_dict`, if its texts with a default are not
-- empty and a number that counts as false in it is the default 0.0 itself.
pub NodeInfo_round_trip :
    {F : Type 0} ⦃rt : Runtime F⦄ (n : NodeInfo F)
    → nonempty n.watts_source ≡ true
    → nonempty n.neighborhood ≡ true
    → (rt.nonzero n.wattage ≡ true) ⊎ (n.wattage ≡ rt.zero)
    → (rt.nonzero n.last_seen ≡ true) ⊎ (n.last_seen ≡ rt.zero)
    → NodeInfo_from_dict (NodeInfo_to_dict n) ≡ some n
unfolding NodeInfo_from_dict NodeInfo_to_dict
NodeInfo_round_trip n hs hn hw hl = ground arith
