-- ===== src/Protocol/Text.antt =====
-- The text forms of the records of pygrid/protocol.py, to_json and from_json. A text in bytes, whose
-- encoding json finds out, is not modelled; a mapping that is given as such goes to from_dict.
use nycc_grid.Base.{String, ◌≡◌, ◌⊎◌, Bool, true, Option, some, List, [], ◌∷◌, arith}
use nycc_grid.Json.{Json, Fields, get_field, has_field, as_obj, nonempty, obj}
use nycc_grid.Runtime.{Runtime}
use nycc_grid.Text.{◌>>=◌}
use nycc_grid.Protocol.{
  NodeInfo, JobEnvelope, NodeInfo_from_dict, JobEnvelope_from_dict, NodeInfo_to_dict,
  JobEnvelope_to_dict,
}
use nycc_grid.Protocol.RoundTrip.{JobEnvelope_round_trip, NodeInfo_round_trip}

-- What a mapping says for some keys: whether it has them, and their values.
abbrev pub readings : {F : Type 0} → Fields F → List String → List (Bool × Json F)
readings d [] = []
readings d (k ∷ ks) = (has_field d k, get_field d k) ∷ readings d ks

abbrev pub envelope_keys : List String
envelope_keys = "job_id" ∷ "to_node" ∷ "blob_b64" ∷ "reply_pubkey" ∷ "status" ∷ []

abbrev pub info_keys : List String
info_keys =
    "node_id" ∷ "pubkey" ∷ "verify_key" ∷ "wattage" ∷ "last_seen" ∷ "watts_source" ∷ "neighborhood"
    ∷ []

module _ {F : Type 0} ⦃rt : Runtime F⦄ where
  -- `json.loads(data)` of a text, where it is a mapping; none is an exception.
  unfoldable pub mapping_of : String → Option (Fields F)
  mapping_of text = do doc ← rt.loads_str text; as_obj doc

  -- `_Serde.to_json` and `_Serde.from_json` of a NodeInfo.
  unfoldable pub NodeInfo_to_json : NodeInfo F → String
  NodeInfo_to_json n = rt.dumps_canonical (obj (NodeInfo_to_dict n))

  unfoldable pub NodeInfo_from_json : String → Option (NodeInfo F)
  NodeInfo_from_json text = do d ← mapping_of text; NodeInfo_from_dict d

  NodeInfo_from_dict-readings :
      (d e : Fields F)
      → readings d info_keys ≡ readings e info_keys
      → NodeInfo_from_dict d ≡ NodeInfo_from_dict e
  unfolding NodeInfo_from_dict
  NodeInfo_from_dict-readings d e h = ground (arith, h)

  -- A node record survives to_json followed by from_json, if its texts with a default are not empty,
  -- a number that counts as false in it is the default 0.0 itself, and json gives back, in whatever
  -- order, fields with the values that were written.
  pub NodeInfo_from_json-NodeInfo_to_json :
      (n : NodeInfo F) (d : Fields F)
      → nonempty n.watts_source ≡ true
      → nonempty n.neighborhood ≡ true
      → (rt.nonzero n.wattage ≡ true) ⊎ (n.wattage ≡ rt.zero)
      → (rt.nonzero n.last_seen ≡ true) ⊎ (n.last_seen ≡ rt.zero)
      → rt.loads_str (rt.dumps_canonical (obj (NodeInfo_to_dict n))) ≡ some (obj d)
      → readings d info_keys ≡ readings (NodeInfo_to_dict n) info_keys
      → NodeInfo_from_json (NodeInfo_to_json n) ≡ some n
  unfolding NodeInfo_from_json NodeInfo_to_json mapping_of
  NodeInfo_from_json-NodeInfo_to_json n d hs hn hw hl loaded h = ground (
    arith,
    loaded,
    NodeInfo_from_dict-readings d (NodeInfo_to_dict n) h,
    NodeInfo_round_trip n hs hn hw hl,
  )

module _ (F : Type 0) ⦃rt : Runtime F⦄ where
  -- `_Serde.to_json` and `_Serde.from_json` of a JobEnvelope.
  unfoldable pub JobEnvelope_to_json : JobEnvelope → String
  JobEnvelope_to_json j = rt.dumps_canonical (obj (JobEnvelope_to_dict {F = F} j))

  unfoldable pub JobEnvelope_from_json : String → Option JobEnvelope
  JobEnvelope_from_json text = do d ← mapping_of {F = F} text; JobEnvelope_from_dict d

  JobEnvelope_from_dict-readings :
      (d e : Fields F)
      → readings d envelope_keys ≡ readings e envelope_keys
      → JobEnvelope_from_dict d ≡ JobEnvelope_from_dict e
  unfolding JobEnvelope_from_dict
  JobEnvelope_from_dict-readings d e h = ground (arith, h)

  -- Every job envelope survives to_json followed by from_json, if json gives back, in whatever
  -- order, fields with the values that were written.
  pub JobEnvelope_from_json-JobEnvelope_to_json :
      (j : JobEnvelope) (d : Fields F)
      → rt.loads_str (rt.dumps_canonical (obj (JobEnvelope_to_dict {F = F} j))) ≡ some (obj d)
      → readings d envelope_keys ≡ readings (JobEnvelope_to_dict j) envelope_keys
      → JobEnvelope_from_json (JobEnvelope_to_json j) ≡ some j
  unfolding JobEnvelope_from_json JobEnvelope_to_json mapping_of
  JobEnvelope_from_json-JobEnvelope_to_json j d loaded h = ground (
    arith,
    loaded,
    JobEnvelope_from_dict-readings d (JobEnvelope_to_dict j) h,
    JobEnvelope_round_trip F j,
  )
