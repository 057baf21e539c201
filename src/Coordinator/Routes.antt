-- ===== src/Coordinator/Routes.antt =====
-- `do_get` and `do_post` of _CoordinatorHandler in pygrid/testkit.py, with the reading of bodies
-- in _JsonHandler.
use Prim.Native.String.{slice, len}
use text.Mathlib.Text.{starts_with}
use nycc_grid.Base.{
  ltb, if◌then◌else◌, take, ◌==◌, String, ◌≡◌, refl, ◌⊎◌, inl, inr, Bool, true, not, ◌||◌, Option,
  none, some, List, [], ◌∷◌, nat_eq, string_eq, pair_eq,
}
use nycc_grid.Base.Int.{ℤ, pos, negsuc}
use nycc_grid.Json.{Fields, fields, as_obj, nonempty, bool, end}
use nycc_grid.Runtime.{Bytes, Platform, Runtime}
use nycc_grid.Crypto.Header
use nycc_grid.Coordinator.State.{max_body_bytes, Coordinator, Reply, refuse, World, send, crash}
use nycc_grid.Coordinator.Headers.{Request, header_of}
use nycc_grid.Coordinator.Gate.{member_gate}
use nycc_grid.Coordinator.Listing.{list_nodes, stats}
use nycc_grid.Coordinator.Nodes.{register, heartbeat}
use nycc_grid.Coordinator.Submit.{create_job}
use nycc_grid.Coordinator.Pull.{pull}
use nycc_grid.Coordinator.Result.{job_status, result}

-- The answer to a body that cannot be used, or the document and its raw bytes.
pub data Body (F : Type 0) : Type 0 where
  document : Fields F → Bytes → Body F
  unusable : Reply F → Body F

-- The keys of `routes`.
abbrev pub is_post_route : String → Bool
is_post_route path =
    path == "/v1/nodes/register"
    || path == "/v1/nodes/heartbeat"
    || path == "/v1/jobs"
    || path == "/v1/jobs/result"

module _ ⦃pl : Platform⦄ where
  -- `int(self.headers.get("Content-Length") or 0)`, and 0 where that raises.
  unfoldable pub content_length : List (String × String) → ℤ
  content_length headers = elim (header_of "Content-Length" headers) [
    | none ↦ pos 0
    | some s ↦
        if not (nonempty s) then pos 0 else elim (pl.int_of_str s) [ none ↦ pos 0 | some z ↦ z ]
  ]

  -- `_read_body`: none is the 413. A read of a negative length takes all that comes.
  unfoldable pub read_body : Request → Option Bytes
  read_body req = elim (content_length req.headers) [
    | pos n ↦ if ltb max_body_bytes n then none else some (take n req.stream)
    | negsuc n ↦ some req.stream
  ]

pub Body-cases :
    {F : Type 0} (b : Body F)
    → ((r : Reply F) × (b ≡ unusable r)) ⊎ ((d : Fields F) × (raw : Bytes) × (b ≡ document d raw))
Body-cases (unusable r) = inl (r, refl)
Body-cases (document d raw) = inr (d, raw, refl)

module _ {F : Type 0} ⦃pl : Platform⦄ ⦃rt : Runtime F⦄ where
  unfoldable pub json_body : Request → Body F
  json_body req = elim (read_body req) [
    | none ↦ unusable (refuse 413 "request body too large")
    | some [] ↦ document end []
    | some (b ∷ bs) ↦ elim (rt.loads (b ∷ bs)) [
      | none ↦ unusable (if rt.loads_escapes (b ∷ bs) then crash else refuse 400 "body is not json")
      | some doc ↦ elim (as_obj doc) [
        | none ↦ unusable (refuse 400 "body is not a json object")
        | some d ↦ document d (b ∷ bs)
      ]
    ]
  ]

  -- The handler of POST /v1/jobs behind the gate.
  unfoldable pub gated_create :
      World F → Request → Fields F → Bytes → Coordinator F → Coordinator F × Reply F
  gated_create w req body raw s =
      let (t, denial) = member_gate w req raw s in
      elim denial [ some r ↦ (t, r) | none ↦ create_job w body t ]

  abbrev pub dispatch_post :
      World F → Request → String → Fields F → Bytes → Coordinator F → Coordinator F × Reply F
  dispatch_post w req path body raw s =
      if path == "/v1/jobs"
      then gated_create w req body raw s
      else if path == "/v1/nodes/register"
      then register w body s
      else if path == "/v1/nodes/heartbeat"
      then heartbeat w (header_of Header.node_id req.headers) body s
      else result w (header_of Header.node_id req.headers) body s

  abbrev pub no_route : Reply F
  no_route = refuse 404 "no such route"

  -- A body too large on an unknown route is answered before the 404; what the 404 then writes to
  -- the connection is not modelled.
  unfoldable pub do_post : World F → Request → Coordinator F → Coordinator F × Reply F
  do_post w req s =
      let path = pl.url_path req.target in
      if not (is_post_route path)
      then (
        s,
        elim (read_body req) [ none ↦ refuse 413 "request body too large" | some _ ↦ no_route ],
      )
      else elim (json_body req) [
        | unusable r ↦ (s, r)
        | document body raw ↦ dispatch_post w req path body raw s
      ]

  unfoldable pub do_get : World F → Request → Coordinator F → Coordinator F × Reply F
  do_get w req s =
      let path = pl.url_path req.target in
      let query = pl.parse_query (pl.url_query req.target) in
      if path == "/healthz"
      then (s, send 200 (fields (("ok", bool true) ∷ [])))
      else if path == "/v1/stats"
      then (s, send 200 (stats w.time s))
      else if path == "/v1/nodes"
      then (s, list_nodes w.time query s)
      else if path == "/v1/jobs/pull"
      then pull w (header_of Header.node_id req.headers) query s
      else if starts_with path "/v1/jobs/"
      then (s, job_status (pl.unquote (slice path 9 (len path))) s)
      else (s, no_route)
