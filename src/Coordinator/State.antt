-- ===== src/Coordinator/State.antt =====
-- The state of MockCoordinator in pygrid/testkit.py, its helpers, and the answers of a handler.
use nycc_grid.Base.{
  if◌then◌else◌, count_if, ◌==◌, ℕ, ◌-◌, ◌*◌, String, Bool, true, false, ◌&&◌, ◌||◌, Option, none,
  some, List, [], ◌∷◌, nat_eq, string_eq, pair_eq,
}
use nycc_grid.Base.Dict.{Dict, get, put, values}
use nycc_grid.Json.{Json, Fields, fields, null, bool, int, float, str, arr, obj}
use nycc_grid.Runtime.{Runtime}
use nycc_grid.Protocol.{Status, JobEnvelope, queued, running, done}

abbrev pub pull_max : ℕ
pull_max = 10

abbrev pub lease_ms : ℕ
lease_ms = 10 * 60 * 1000

abbrev pub max_attempts : ℕ
max_attempts = 5

abbrev pub max_body_bytes : ℕ
max_body_bytes = 2 * 1024 * 1024

abbrev pub max_blob_b64_bytes : ℕ
max_blob_b64_bytes = 1024 * 1024

abbrev pub max_receipt_bytes : ℕ
max_receipt_bytes = 8 * 1024

abbrev pub max_queued_per_node : ℕ
max_queued_per_node = 100

abbrev pub default_nodes_limit : ℕ
default_nodes_limit = 50

abbrev pub nodes_limit_max : ℕ
nodes_limit_max = 200

-- A value of `self.nodes`. The keys are any JSON values that count as true.
pub record Node (F : Type 0) : Type 0 where
  pub node_id : String
  pub pubkey : Json F
  pub verify_key : Json F
  pub wattage : F
  pub watts_source : String
  pub neighborhood : String
  pub last_seen : F

-- A value of `self.jobs`. Times are milliseconds since the epoch.
pub record Job (F : Type 0) : Type 0 where
  pub job_id : String
  pub to_node : String
  pub blob_b64 : String
  pub reply_pubkey : String
  pub status : Status
  pub result_b64 : Option String
  pub receipt : Option (Fields F)
  pub lease_until_ms : ℕ
  pub attempts : ℕ
  pub created_ms : ℕ
  pub seq : ℕ

pub record Coordinator (F : Type 0) : Type 0 where
  pub nodes : Dict String (Node F)
  pub jobs : Dict String (Job F)
  pub idempotency : Dict (String × String) String
  pub club_verify_key : String
  pub member_nonces : Dict (String × String) F
  pub members_seen : List String
  pub jobs_done : ℕ
  pub seq : ℕ

-- `__init__`; an absent club key is the empty one.
unfoldable pub init : {F : Type 0} → Option String → Coordinator F
init club_verify_key = record {
  nodes = [];
  jobs = [];
  idempotency = [];
  club_verify_key = elim club_verify_key [ none ↦ "" | some k ↦ k ];
  member_nonces = [];
  members_seen = [];
  jobs_done = 0;
  seq = 0;
}

-- What a handler does with the connection: `_send`, or an exception that it does not catch, which
-- closes the connection with no answer.
pub data Reply (F : Type 0) : Type 0 where
  send : ℕ → Fields F → Reply F
  crash : Reply F

-- `self._send(status, {"error": detail})`
abbrev pub refuse : {F : Type 0} → ℕ → String → Reply F
refuse status detail = send status (fields (("error", str detail) ∷ []))

-- What the handlers read of the world: the clock in seconds (`time.time()`), the reading that the
-- member gate compares, the clock in milliseconds (`_now_ms()`), and a `uuid.uuid4()`.
pub record World (F : Type 0) : Type 0 where
  pub time : F
  pub gate_time : F
  pub now_ms : ℕ
  pub uuid : String

abbrev pub is_queued : Status → Bool
is_queued queued = true
is_queued _ = false

abbrev pub is_running : Status → Bool
is_running running = true
is_running _ = false

abbrev pub is_done : Status → Bool
is_done done = true
is_done _ = false

-- The header named, if it is there, is the node of the body.
abbrev pub header_matches : Option String → String → Bool
header_matches none node_id = true
header_matches (some header_id) node_id = header_id == node_id

module _ {F : Type 0} where
  -- `self.envelope(job)`: the five fields of `_ENVELOPE_FIELDS`.
  unfoldable pub envelope : Job F → JobEnvelope
  envelope job = record {
    job_id = job.job_id;
    to_node = job.to_node;
    blob_b64 = job.blob_b64;
    reply_pubkey = job.reply_pubkey;
    status = job.status;
  }

  -- The test of `queued_count` on one job.
  abbrev pub is_backlog : String → Job F → Bool
  is_backlog node_id job = job.to_node == node_id && (is_queued job.status || is_running job.status)

  unfoldable pub queued_count : Coordinator F → String → ℕ
  queued_count s node_id = count_if (is_backlog node_id) (values s.jobs)

  -- The node after `touch`.
  abbrev pub touch_node : F → Option F → Option String → Node F → Node F
  touch_node time wattage watts_source node = record node {
    last_seen = time;
    wattage = elim wattage [ none ↦ node.wattage | some w ↦ w ];
    watts_source = elim watts_source [ none ↦ node.watts_source | some v ↦ v ];
  }

  unfoldable pub touch : F → String → Option F → Option String → Coordinator F → Coordinator F
  touch time node_id wattage watts_source s = elim (get s.nodes node_id) [
    | none ↦ s
    | some node ↦ record s {
      nodes = put s.nodes node_id (touch_node time wattage watts_source node);
    }
  ]

-- `set_last_seen`: none is the KeyError of an unknown node.
unfoldable pub set_last_seen : {F : Type 0} → String → F → Coordinator F → Option (Coordinator F)
set_last_seen node_id last_seen s = elim (get s.nodes node_id) [
  | none ↦ none
  | some node ↦
      some (record s { nodes = put s.nodes node_id (record node { last_seen = last_seen }) })
]

-- `expire_lease` at a clock that reads at least 1: none is the KeyError of an unknown job.
unfoldable pub expire_lease : {F : Type 0} → ℕ → String → Coordinator F → Option (Coordinator F)
expire_lease now_ms job_id s = elim (get s.jobs job_id) [
  | none ↦ none
  | some job ↦
      some (record s { jobs = put s.jobs job_id (record job { lease_until_ms = now_ms - 1 }) })
]

module _ {F : Type 0} ⦃rt : Runtime F⦄ where
  -- `alive(node, now)`: last seen at most STALE_AFTER_S = 90.0 seconds ago.
  unfoldable pub alive : F → Node F → Bool
  alive now node = rt.le (rt.sub now node.last_seen) (rt.literal 90)

  unfoldable pub node_view : F → Node F → Fields F
  node_view now node = fields (
      ("node_id", str node.node_id)
      ∷ ("pubkey", node.pubkey)
      ∷ ("verify_key", node.verify_key)
      ∷ ("wattage", float node.wattage)
      ∷ ("watts_source", str node.watts_source)
      ∷ ("neighborhood", str node.neighborhood)
      ∷ ("last_seen", float node.last_seen)
      ∷ ("alive", bool (alive now node))
      ∷ [])

  -- `_f(value)`: a default for what `float` refuses with TypeError or ValueError; none is the
  -- OverflowError of an int beyond the floats, which it does not catch.
  unfoldable pub float_or : Json F → F → Option F
  float_or (bool b) default = some (if b then rt.one else rt.zero)
  float_or (int z) default = rt.float_of_int z
  float_or (float x) default = some x
  float_or (str s) default = some (elim (rt.float_of_str s) [ none ↦ default | some x ↦ x ])
  float_or null default = some default
  float_or (arr xs) default = some default
  float_or (obj d) default = some default
