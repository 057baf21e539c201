-- ===== src/Protocol.antt =====
-- pygrid/protocol.py: the wire records, their defaults, and the neighborhood grammar. Each
-- `from_dict` returns none where Python raises.
pub mod RoundTrip
pub mod Text
use Prim.Native.Char.{code}
use Prim.Native.String
use nycc_grid.Base.{
  leb, nat_beq, if◌then◌else◌, length, ◌==◌, ℕ, String, ◌≡◌, refl, ◌⊎◌, inl, inr, Bool, false, ◌&&◌,
  ◌||◌, Option, none, some, List, [], ◌∷◌, nat_eq, string_eq, pair_eq,
}
use nycc_grid.Json.{Json, Fields, get_field, has_field, fields, as_str, is_str, float, str}
use nycc_grid.Runtime.{Runtime, truthy}
use nycc_grid.Text.{codes, all, ◌>>=◌, to_str, to_float}

-- `JOB_STATUSES`.
pub data Status : Type 0 where
  queued running done failed : Status

pub Status-cases : (x : Status) → (x ≡ queued) ⊎ ((x ≡ running) ⊎ ((x ≡ done) ⊎ (x ≡ failed)))
Status-cases queued = inl refl
Status-cases running = inr (inl refl)
Status-cases done = inr (inr (inl refl))
Status-cases failed = inr (inr (inr refl))

abbrev pub status_name : Status → String
status_name queued = "queued"
status_name running = "running"
status_name done = "done"
status_name failed = "failed"

-- `status in JOB_STATUSES`, with the status.
abbrev pub parse_status : String → Option Status
parse_status s =
    if s == "queued"
    then some queued
    else if s == "running"
    then some running
    else if s == "done"
    then some done
    else if s == "failed"
    then some failed
    else none

-- `WATTS_SOURCES`
abbrev pub is_watts_source : {F : Type 0} → Json F → Bool
is_watts_source v = is_str v "claimed" || is_str v "measured"

abbrev pub default_watts_source : String
default_watts_source = "claimed"

abbrev pub default_neighborhood : String
default_neighborhood = "undisclosed"

-- `[a-z0-9]`
abbrev neighborhood_head : ℕ → Bool
neighborhood_head c = (leb b'a' c && leb c b'z') || (leb b'0' c && leb c b'9')

-- `[a-z0-9 \-']`
abbrev pub neighborhood_char : ℕ → Bool
neighborhood_char c = neighborhood_head c || nat_beq c b' ' || nat_beq c b'-' || nat_beq c 39

-- `NEIGHBORHOOD_RE` on the code points of a string: one head, then at most 31 others, then `\Z`.
unfoldable pub matches_neighborhood : List ℕ → Bool
matches_neighborhood [] = false
matches_neighborhood (c ∷ cs) =
    neighborhood_head c && (all neighborhood_char cs && leb (length cs) 31)

abbrev pub valid_neighborhood_str : String → Bool
valid_neighborhood_str s = matches_neighborhood (codes s)

unfoldable pub valid_neighborhood : {F : Type 0} → Json F → Bool
valid_neighborhood v = elim (as_str v) [ some s ↦ valid_neighborhood_str s | none ↦ false ]

-- `NodeInfo`
pub record NodeInfo (F : Type 0) : Type 0 where
  pub node_id : String
  pub pubkey : String
  pub verify_key : String
  pub wattage : F
  pub last_seen : F
  pub watts_source : String
  pub neighborhood : String

-- `JobEnvelope`, whose `__post_init__` holds the status to `JOB_STATUSES`.
pub record JobEnvelope : Type 0 where
  pub job_id : String
  pub to_node : String
  pub blob_b64 : String
  pub reply_pubkey : String
  pub status : Status

module _ {F : Type 0} ⦃rt : Runtime F⦄ where
  -- `str(_req(data, key))`
  abbrev req_str : Fields F → String → Option String
  req_str d k = if has_field d k then some (to_str (get_field d k)) else none

  -- `str(data.get(key) or fallback)`
  abbrev str_or : Fields F → String → String → String
  str_or d k fallback = if truthy (get_field d k) then to_str (get_field d k) else fallback

  -- `float(data.get(key) or 0.0)`
  abbrev float_or_zero : Fields F → String → Option F
  float_or_zero d k = if truthy (get_field d k) then to_float (get_field d k) else some rt.zero

  unfoldable pub NodeInfo_from_dict : Fields F → Option (NodeInfo F)
  NodeInfo_from_dict d = do
    node_id ← req_str d "node_id"
    pubkey ← req_str d "pubkey"
    verify_key ← req_str d "verify_key"
    wattage ← float_or_zero d "wattage"
    last_seen ← float_or_zero d "last_seen"
    some (record {
      node_id = node_id;
      pubkey = pubkey;
      verify_key = verify_key;
      wattage = wattage;
      last_seen = last_seen;
      watts_source = str_or d "watts_source" default_watts_source;
      neighborhood = str_or d "neighborhood" default_neighborhood;
    })

  unfoldable pub JobEnvelope_from_dict : Fields F → Option JobEnvelope
  JobEnvelope_from_dict d = do
    job_id ← req_str d "job_id"
    to_node ← req_str d "to_node"
    blob_b64 ← req_str d "blob_b64"
    reply_pubkey ← req_str d "reply_pubkey"
    status ← parse_status (str_or d "status" "queued")
    some (record {
      job_id = job_id;
      to_node = to_node;
      blob_b64 = blob_b64;
      reply_pubkey = reply_pubkey;
      status = status;
    })

-- `to_dict`, which is `asdict`: the fields in their order.
unfoldable pub NodeInfo_to_dict : {F : Type 0} → NodeInfo F → Fields F
NodeInfo_to_dict n = fields (
    ("node_id", str n.node_id)
    ∷ ("pubkey", str n.pubkey)
    ∷ ("verify_key", str n.verify_key)
    ∷ ("wattage", float n.wattage)
    ∷ ("last_seen", float n.last_seen)
    ∷ ("watts_source", str n.watts_source)
    ∷ ("neighborhood", str n.neighborhood)
    ∷ [])

unfoldable pub JobEnvelope_to_dict : {F : Type 0} → JobEnvelope → Fields F
JobEnvelope_to_dict j = fields (
    ("job_id", str j.job_id)
    ∷ ("to_node", str j.to_node)
    ∷ ("blob_b64", str j.blob_b64)
    ∷ ("reply_pubkey", str j.reply_pubkey)
    ∷ ("status", str (status_name j.status))
    ∷ [])
