-- ===== src/Coordinator/Submit.antt =====
-- `_create_job` of _CoordinatorHandler in pygrid/testkit.py.
use nycc_grid.Base.{
  ltb, leb, if◌then◌else◌, ℕ, suc, String, count, Bool, true, not, ◌||◌, Option, none, some, [],
  ◌∷◌, nat_eq, string_eq, pair_eq,
}
use nycc_grid.Base.Dict.{Dict, get, put, has}
use nycc_grid.Json.{Fields, get_field, fields, as_str, nonempty, bool, str}
use nycc_grid.Text.{◌>>=◌}
use nycc_grid.Protocol.{queued}
use nycc_grid.Coordinator.State.{
  max_blob_b64_bytes, max_queued_per_node, Job, Coordinator, Reply, refuse, World, queued_count,
  send,
}

-- The test of the texts, once they are there.
abbrev pub named_request : Bool → String × String × String → Option (String × String × String)
named_request is_missing request = if is_missing then none else some request

-- `mock.idempotency[idem_key] = job_id`, if there is a key.
abbrev pub remember :
    Option (String × String)
    → String
    → Dict (String × String) String
    → Dict (String × String) String
remember none job_id d = d
remember (some k) job_id d = put d k job_id

-- The job that the idempotency key has made already.
abbrev pub recall : Option (String × String) → Dict (String × String) String → Option String
recall none d = none
recall (some k) d = get d k

module _ {F : Type 0} where
  -- The three texts of a submission; none is the 400.
  unfoldable pub job_request : Fields F → Option (String × String × String)
  job_request body = do
    to_node ← as_str (get_field body "to_node")
    blob_b64 ← as_str (get_field body "blob_b64")
    reply_pubkey ← as_str (get_field body "reply_pubkey")
    named_request (not (nonempty to_node) || not (nonempty blob_b64))
        (to_node, blob_b64, reply_pubkey)

  -- The idempotency key, scoped to the node.
  unfoldable pub idem_key_of : String → Fields F → Option (String × String)
  idem_key_of to_node body = elim (as_str (get_field body "idempotency_key")) [
    | none ↦ none
    | some idem ↦ if nonempty idem then some (to_node, idem) else none
  ]

  abbrev pub new_job : World F → String × String × String → ℕ → Job F
  new_job w (to_node, blob_b64, reply_pubkey) seq = record {
    job_id = w.uuid;
    to_node = to_node;
    blob_b64 = blob_b64;
    reply_pubkey = reply_pubkey;
    status = queued;
    result_b64 = none;
    receipt = none;
    lease_until_ms = 0;
    attempts = 0;
    created_ms = w.now_ms;
    seq = seq;
  }

  unfoldable pub enqueue :
      World F → Option (String × String) → String × String × String → Coordinator F → Coordinator F
  enqueue w idem_key request s = record s {
    seq = suc s.seq;
    jobs = put s.jobs w.uuid (new_job w request (suc s.seq));
    idempotency = remember idem_key w.uuid s.idempotency;
  }

  abbrev pub admit :
      World F
      → Option (String × String)
      → String × String × String
      → Coordinator F
      → Coordinator F × Reply F
  admit w idem_key request s =
      if not (has s.nodes request.0)
      then (s, refuse 404 "unknown to_node")
      else elim (recall idem_key s.idempotency) [
        | some job_id ↦
            (s, send 200 (fields (("job_id", str job_id) ∷ ("duplicate", bool true) ∷ [])))
        | none ↦
            if leb max_queued_per_node (queued_count s request.0)
            then (s, refuse 429 "per-node queue is full")
            else (enqueue w idem_key request s, send 200 (fields (("job_id", str w.uuid) ∷ [])))
      ]

  unfoldable pub create_job : World F → Fields F → Coordinator F → Coordinator F × Reply F
  create_job w body s = elim (job_request body) [
    | none ↦ (s, refuse 400 "to_node, blob_b64 and reply_pubkey are required")
    | some request ↦
        if ltb max_blob_b64_bytes (count request.1)
        then (s, refuse 413 "blob_b64 over 1 MiB")
        else admit w (idem_key_of request.0 body) request s
  ]
