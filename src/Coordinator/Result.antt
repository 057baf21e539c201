-- ===== src/Coordinator/Result.antt =====
-- `_result` and `_job_status` of _CoordinatorHandler in pygrid/testkit.py.
use nycc_grid.Base.{
  ltb, if◌then◌else◌, ◌==◌, suc, String, count, ◌≡◌, refl, ◌⊎◌, inl, inr, true, not, Option, none,
  some, [], ◌∷◌, nat_eq, string_eq, pair_eq,
}
use nycc_grid.Base.Dict.{get, put}
use nycc_grid.Json.{Json, Fields, get_field, fields, as_str, nonempty, null, bool, str, obj}
use nycc_grid.Runtime.{Runtime}
use nycc_grid.Protocol.{status_name, done}
use nycc_grid.Crypto.{◌+++◌}
use nycc_grid.Coordinator.State.{
  max_blob_b64_bytes, max_receipt_bytes, Job, Coordinator, Reply, refuse, World, is_running,
  is_done, touch, send,
}

module _ {F : Type 0} where
  abbrev pub finished_job : String → Option (Fields F) → Job F → Job F
  finished_job blob_b64 receipt job = record job {
    status = done;
    result_b64 = some blob_b64;
    receipt = receipt;
    lease_until_ms = 0;
  }

  -- The tail of `_result`, on a job of the node: first result wins, and only a running job has one.
  unfoldable pub post_result :
      World F
      → String
      → String
      → Option (Fields F)
      → Job F
      → Coordinator F
      → Coordinator F × Reply F
  post_result w node_id blob_b64 receipt job s =
      let t = touch w.time node_id none none s in
      if is_done job.status
      then (
        t,
        send 200
            (fields (("ok", bool true) ∷ ("status", str "done") ∷ ("duplicate", bool true) ∷ [])),
      )
      else if not (is_running job.status)
      then (
        t,
        send 409 (
            fields (
              ("error", str ("job is " +++ status_name job.status +++ ", not running"))
              ∷ ("status", str (status_name job.status))
              ∷ [])),
      )
      else (
        record t {
          jobs = put t.jobs job.job_id (finished_job blob_b64 receipt job);
          jobs_done = suc t.jobs_done;
        },
        send 200 (fields (("ok", bool true) ∷ ("status", str "done") ∷ [])),
      )

  abbrev pub result_for :
      World F
      → String
      → String
      → String
      → Option (Fields F)
      → Coordinator F
      → Coordinator F × Reply F
  result_for w node_id job_id blob_b64 receipt s = elim (get s.jobs job_id) [
    | none ↦ (s, refuse 404 "unknown job_id")
    | some job ↦
        if not (job.to_node == node_id)
        then (s, refuse 403 "job does not belong to this node")
        else post_result w node_id blob_b64 receipt job s
  ]

  -- The status of a job that is done: the result, never the job's own blob, and the receipt if the
  -- node posted one.
  abbrev pub done_answer : Option String → Option (Fields F) → Reply F
  done_answer result_b64 receipt =
      let blob : Json F = elim result_b64 [ none ↦ null | some b ↦ str b ] in
      elim receipt [
        | none ↦ send 200 (fields (("status", str "done") ∷ ("blob_b64", blob) ∷ []))
        | some r ↦
            send 200
              (fields (("status", str "done") ∷ ("blob_b64", blob) ∷ ("receipt", obj r) ∷ []))
      ]

  unfoldable pub job_status : String → Coordinator F → Reply F
  job_status job_id s = elim (get s.jobs job_id) [
    | none ↦ refuse 404 "unknown job_id"
    | some job ↦
        if not (is_done job.status)
        then send 200 (fields (("status", str (status_name job.status)) ∷ []))
        else done_answer job.result_b64 job.receipt
  ]

-- What `_result` makes of the receipt in the body.
pub data Posted (F : Type 0) : Type 0 where
  accepted : Option (Fields F) → Posted F
  refused : Reply F → Posted F

module _ {F : Type 0} ⦃rt : Runtime F⦄ where
  unfoldable pub posted_receipt : Fields F → Posted F
  posted_receipt body = elim (get_field body "receipt") [
    | null ↦ accepted none
    | obj r ↦
        if ltb max_receipt_bytes (count (rt.dumps (obj r)))
        then refused (refuse 413 "receipt too large")
        else accepted (some r)
    | _ ↦ refused (refuse 400 "receipt must be a json object")
  ]

  abbrev pub result_body :
      World F → String → String → String → Fields F → Coordinator F → Coordinator F × Reply F
  result_body w node_id job_id blob_b64 body s =
      if not (nonempty blob_b64)
      then (s, refuse 400 "job_id and blob_b64 are required")
      else if ltb max_blob_b64_bytes (count blob_b64)
      then (s, refuse 413 "blob_b64 over 1 MiB")
      else elim (posted_receipt body) [
        | refused r ↦ (s, r)
        | accepted receipt ↦ result_for w node_id job_id blob_b64 receipt s
      ]

  unfoldable pub result :
      World F → Option String → Fields F → Coordinator F → Coordinator F × Reply F
  result w header_id body s = elim header_id [
    | none ↦ (s, refuse 400 "missing X-NYCC-Node-Id")
    | some node_id ↦
        if not (nonempty node_id)
        then (s, refuse 400 "missing X-NYCC-Node-Id")
        else elim (as_str (get_field body "job_id")) [
          | none ↦ (s, refuse 400 "job_id and blob_b64 are required")
          | some job_id ↦ elim (as_str (get_field body "blob_b64")) [
            | none ↦ (s, refuse 400 "job_id and blob_b64 are required")
            | some blob_b64 ↦ result_body w node_id job_id blob_b64 body s
          ]
        ]
  ]

pub Posted-cases :
    {F : Type 0} (p : Posted F)
    → ((r : Reply F) × (p ≡ refused r)) ⊎ ((o : Option (Fields F)) × (p ≡ accepted o))
Posted-cases (refused r) = inl (r, refl)
Posted-cases (accepted o) = inr (o, refl)
