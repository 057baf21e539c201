-- ===== src/Client/Delivery/Stored.antt =====
-- The answer of a node of pygrid/node.py, through the coordinator of pygrid/testkit.py, to the client
-- of pygrid/client.py.
use mathlib.Core.Path.{subst}
use nycc_grid.Client.Answer.{read_result}
use nycc_grid.Base.{
  ◌==◌, ℕ, ◌≤◌, String, count, ◌≡◌, sym, true, Option, some, [], ◌∷◌, arith, string_eq, pair_eq,
  nat_eq,
}
use nycc_grid.Base.Dict.{get}
use nycc_grid.Json.{Json, Fields, get_field, fields, object, nonempty, str, obj}
use nycc_grid.Runtime.{Bytes, Platform, Runtime}
use nycc_grid.Net.{Net}
use nycc_grid.Protocol.{JobEnvelope, running}
use nycc_grid.Node.{Agent}
use nycc_grid.Node.Work.{result_payload}
use nycc_grid.Client.Calls.{returned}
use nycc_grid.Coordinator.State.{
  max_blob_b64_bytes, max_receipt_bytes, Job, Coordinator, World, send,
}
use nycc_grid.Crypto.Pairs.{IsBoxPair, IsSignPair}
use nycc_grid.Client.Delivery.Returned.{IsListed, read_result-result_payload}
use nycc_grid.Coordinator.Result.{post_result, job_status, posted_receipt, result}
use nycc_grid.Coordinator.Invariant.{Inv, IsFresh}
use nycc_grid.Coordinator.Invariant.Reach.{Reach}
use nycc_grid.Coordinator.Runs.Answers.{result-job_status}
use nycc_grid.Text.{to_str}

module _ {F : Type 0} ⦃pl : Platform⦄ ⦃rt : Runtime F⦄ where
  -- A posted result within the limits of the coordinator.
  pub record IsPostable (node_id job_id blob_b64 : String) (receipt body : Fields F) : Type 0 where
    pub some_node : nonempty node_id ≡ true
    pub some_blob : nonempty blob_b64 ≡ true
    pub job_field : get_field body "job_id" ≡ str job_id
    pub blob_field : get_field body "blob_b64" ≡ str blob_b64
    pub receipt_field : get_field body "receipt" ≡ obj receipt
    pub blob_fits : count blob_b64 ≤ max_blob_b64_bytes
    pub receipt_fits : count (rt.dumps (obj receipt)) ≤ max_receipt_bytes

  -- The handler of a result within the limits, for a job of that node.
  result-post_result :
      (w : World F) (node_id job_id blob_b64 : String) (receipt body : Fields F) (j : Job F)
      (s : Coordinator F)
      → IsPostable node_id job_id blob_b64 receipt body
      → get s.jobs job_id ≡ some j
      → (j.to_node == node_id) ≡ true
      → result w (some node_id) body s ≡ post_result w node_id blob_b64 (some receipt) j s
  unfolding result posted_receipt
  result-post_result w node_id job_id blob_b64 receipt body j s p g own = ground (
    arith, p.some_node, p.some_blob, p.job_field, p.blob_field, p.receipt_field, p.blob_fits,
    p.receipt_fits, g, own,
  )

module _ {F S : Type 0} ⦃pl : Platform⦄ ⦃rt : Runtime F⦄ (fetch : ℕ → String → Option (Fields F))
    (net : Net F S) where
  -- When a node posts the result that `process` made for its running job, within the limits of
  -- the coordinator, then through any later run of requests the status of the job is a document
  -- from which the client with the job's reply keys reads the engine's text and the node's
  -- receipt, verified.
  pub result_payload-delivered :
      (w : World F) (a : Agent F) (env : JobEnvelope) (s t : S) (request_raw : Bytes)
      (text : Json F) (body receipt : Fields F) (blob_b64 reply_prv : String) (j : Job F)
      (before after_run : Coordinator F)
      → IsBoxPair env.reply_pubkey reply_prv (pl.utf8 (rt.dumps (object (("text", text) ∷ []))))
      → IsSignPair a.verify_b64 a.sign_b64
      → IsListed fetch a
      → rt.loads_str (pl.decode_replace (pl.utf8 (rt.dumps (object (("text", text) ∷ [])))))
        ≡ some (object (("text", text) ∷ []))
      → result_payload net a env s t request_raw text ≡ some body
      → IsPostable a.node_id env.job_id blob_b64 receipt body
      → Inv before
      → IsFresh w before
      → get before.jobs env.job_id ≡ some j
      → j.status ≡ running
      → (j.to_node == a.node_id) ≡ true
      → Reach (result w (some a.node_id) body before).0 after_run
      → (doc : Fields F) × (inner : Fields F) × (job_status env.job_id after_run ≡ send 200 doc)
        × (read_result fetch env.job_id (env.reply_pubkey, reply_prv) doc
            ≡ returned (to_str text, some inner, true))
  result_payload-delivered w a env s t request_raw text body receipt blob_b64 reply_prv j before
        after_run box pair listed law made post inv fresh stored run own reach =
      let handled =
        result-post_result w a.node_id env.job_id blob_b64 receipt body j before post stored own in
      let reached = subst (λ r. Reach r.0 after_run) handled reach in
      let answer =
        result-job_status w a.node_id env.job_id blob_b64 (some receipt) j before after_run inv
          fresh stored run reached in
      let doc : Fields F =
        fields
          (("status", str "done") ∷ ("blob_b64", str blob_b64) ∷ ("receipt", obj receipt) ∷ []) in
      let (inner, read) =
        read_result-result_payload fetch net a env s t request_raw text body doc reply_prv box pair
          listed law made (sym post.blob_field) (sym post.receipt_field) in
      (doc, inner, answer, read)
