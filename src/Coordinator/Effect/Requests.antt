-- ===== src/Coordinator/Effect/Requests.antt =====
-- Every request of pygrid/testkit.py's handler has one of the four effects on the jobs.
use nycc_grid.Base.{
  ltb, Bool-cases, Option-cases, ◌==◌, String, count, ◌≡◌, ◌≢◌, inl, inr, Option, none, some, arith,
  nat_eq, string_eq, pair_eq,
}
use nycc_grid.Coordinator.State.{max_blob_b64_bytes, Job, Coordinator, World, touch}
use nycc_grid.Coordinator.Effect.{
  SameBooks, Effect, touch-jobs, touch-SameBooks, get-IsKeyed, Effect-idle, Effect-touch, idle,
  posted,
}
use nycc_grid.Coordinator.Result.{
  post_result, result_for, posted_receipt, result_body, result, Posted-cases,
}
use nycc_grid.Json.{Fields, get_field, as_str, nonempty}
use nycc_grid.Protocol.{Status-cases, running}
use nycc_grid.Base.Dict.{get}
use nycc_grid.Coordinator.Life.{IsKeyed}
use nycc_grid.Runtime.{Runtime}
use nycc_grid.Coordinator.Nodes.{register, heartbeat}

module _ {F : Type 0} (w : World F) (s : Coordinator F) where
  post_result-done :
      (node_id blob_b64 : String) (receipt : Option (Fields F)) (j : Job F)
      → j.status ≢ running
      → Effect w s (post_result w node_id blob_b64 receipt j s).0
  unfolding post_result
  post_result-done node_id blob_b64 receipt j h =
      let kept = Effect-touch w s node_id none none in
      elim (Status-cases j.status) [
        | inl q ↦ rw (q, post_result) kept
        | inr (inl r) ↦ absurd (h r)
        | inr (inr (inl d)) ↦ rw (d, post_result) kept
        | inr (inr (inr f)) ↦ rw (f, post_result) kept
      ]

  post_result-running :
      (node_id blob_b64 : String) (receipt : Option (Fields F)) (j : Job F)
      → j.status ≡ running
      → get s.jobs j.job_id ≡ some j
      → Effect w s (post_result w node_id blob_b64 receipt j s).0
  unfolding post_result
  post_result-running node_id blob_b64 receipt j r g =
      let same = touch-SameBooks w.time node_id none none s in
      posted j blob_b64 receipt g r (ground (arith, touch-jobs w.time node_id none none s))
        (ground (arith, same.same_done)) (ground (arith, same.same_seq))
        (ground (arith, same.same_idempotency))

  pub Effect-post_result :
      (node_id job_id blob_b64 : String) (receipt : Option (Fields F)) (j : Job F)
      → IsKeyed s.jobs
      → get s.jobs job_id ≡ some j
      → Effect w s (post_result w node_id blob_b64 receipt j s).0
  Effect-post_result node_id job_id blob_b64 receipt j h g =
      let own : get s.jobs j.job_id ≡ some j = cc (get-IsKeyed s.jobs job_id j h g) in
      elim (Status-cases j.status) [
        | inl q ↦ post_result-done node_id blob_b64 receipt j (λ e. cc)
        | inr (inl r) ↦ post_result-running node_id blob_b64 receipt j r own
        | inr (inr (inl d)) ↦ post_result-done node_id blob_b64 receipt j (λ e. cc)
        | inr (inr (inr f)) ↦ post_result-done node_id blob_b64 receipt j (λ e. cc)
      ]

  Effect-result_for :
      (node_id job_id blob_b64 : String) (receipt : Option (Fields F))
      → IsKeyed s.jobs
      → Effect w s (result_for w node_id job_id blob_b64 receipt s).0
  Effect-result_for node_id job_id blob_b64 receipt h = elim (Option-cases (get s.jobs job_id)) [
    | inl e ↦ rw (e, result_for) (Effect-idle w s)
    | inr (j, e) ↦ elim (Bool-cases (j.to_node == node_id)) [
      | inl own ↦
          rw (e, result_for) (rw own (Effect-post_result node_id job_id blob_b64 receipt j h e))
      | inr other ↦ rw (e, result_for) (rw other (Effect-idle w s))
    ]
  ]

module _ {F : Type 0} ⦃rt : Runtime F⦄ (w : World F) (s : Coordinator F) where
  Effect-result_body :
      (node_id job_id blob_b64 : String) (body : Fields F)
      → IsKeyed s.jobs
      → Effect w s (result_body w node_id job_id blob_b64 body s).0
  Effect-result_body node_id job_id blob_b64 body h = elim (Bool-cases (nonempty blob_b64)) [
    | inr e ↦ rw e (Effect-idle w s)
    | inl full ↦ elim (Bool-cases (ltb max_blob_b64_bytes (count blob_b64))) [
      | inl large ↦ rw (full, large) (Effect-idle w s)
      | inr fits ↦ elim (Posted-cases (posted_receipt body)) [
        | inl (r, e) ↦ rw (full, fits, e) (Effect-idle w s)
        | inr (receipt, e) ↦
            rw (full, fits, e) (Effect-result_for w s node_id job_id blob_b64 receipt h)
      ]
    ]
  ]

  pub Effect-result :
      (header_id : Option String) (body : Fields F)
      → IsKeyed s.jobs
      → Effect w s (result w header_id body s).0
  unfolding result
  Effect-result none body h = Effect-idle w s
  Effect-result (some node_id) body h = elim (Bool-cases (nonempty node_id)) [
    | inr e ↦ rw e (Effect-idle w s)
    | inl named ↦ elim (Option-cases (as_str (get_field body "job_id"))) [
      | inl e ↦ rw named (rw e (Effect-idle w s))
      | inr (job_id, e) ↦ elim (Option-cases (as_str (get_field body "blob_b64"))) [
        | inl e2 ↦ rw named (rw e (rw e2 (Effect-idle w s)))
        | inr (blob_b64, e2) ↦
            rw named (rw e (rw e2 (Effect-result_body node_id job_id blob_b64 body h)))
      ]
    ]
  ]

  -- A handler that changes the nodes alone.
  abbrev NodesOnly : Coordinator F → Type 0
  NodesOnly t = (t.jobs ≡ s.jobs) × SameBooks s t

  Effect-of_NodesOnly : (t : Coordinator F) → NodesOnly t → Effect w s t
  Effect-of_NodesOnly t h = idle h.0 h.1

  pub Effect-register : (body : Fields F) → Effect w s (register w body s).0
  unfolding register
  Effect-register body = Effect-of_NodesOnly (register w body s).0 (ground arith)

  pub Effect-heartbeat :
      (header_id : Option String) (body : Fields F) → Effect w s (heartbeat w header_id body s).0
  unfolding heartbeat touch
  Effect-heartbeat header_id body =
      Effect-of_NodesOnly (heartbeat w header_id body s).0 (ground arith)
