-- ===== src/Client/Delivery/Returned.antt =====
-- The answer that `process` of pygrid/node.py posts, as `result_with_receipt` of pygrid/client.py
-- reads it.
use nycc_grid.Base.{
  Option-cases, ℕ, String, ◌≡◌, refl, sym, ap, ◌∙◌, inl, inr, true, Option, some, List, [], ◌∷◌,
  arith, eq_iff,
}
use nycc_grid.Base.Int.{ℤ, pos}
use nycc_grid.Json.{Json, Fields, get_field, object, as_str, as_obj, str, obj}
use nycc_grid.Runtime.{Bytes, Platform, Runtime, truthy}
use nycc_grid.Net.{Net}
use nycc_grid.Crypto.Pairs.{IsSignPair, IsBoxPair, seal-IsBoxPair, unseal-IsBoxPair}
use nycc_grid.Crypto.{b64e, sign, canonical_json}
use nycc_grid.Protocol.{JobEnvelope}
use nycc_grid.Node.{Agent, receipt_fields, build_receipt}
use nycc_grid.Node.Work.{sealed_answer, duration_of, result_payload}
use nycc_grid.Client.{nodes_page_limit, find_node, key_of_record, nodes, verify_receipt}
use nycc_grid.Client.Receipts.{build_receipt-parts, verify_receipt-of_Checked}
use nycc_grid.Client.Answer.{text_of, unsealed, receipt_part, read_result}
use nycc_grid.Client.Calls.{returned}
use nycc_grid.Text.{to_str}
use nycc_grid.Crypto.Box.{seal}

module _ {F S : Type 0} ⦃pl : Platform⦄ ⦃rt : Runtime F⦄ (net : Net F S) where
  -- What a posted result is made of.
  pub record Posting (a : Agent F) (env : JobEnvelope) (s t : S) (request_raw : Bytes)
      (text : Json F) (body : Fields F) : Type 0 where
    pub sealed : Bytes
    pub sealed_as : sealed_answer net env t text ≡ some sealed
    pub duration_ms : ℤ
    pub receipt : Fields F
    pub receipt_as :
        build_receipt a env.job_id (net.iso_now s) (net.iso_now t) duration_ms request_raw sealed
        ≡ some receipt
    pub job_field : get_field body "job_id" ≡ str env.job_id
    pub blob_field : get_field body "blob_b64" ≡ str (b64e sealed)
    pub receipt_field : get_field body "receipt" ≡ obj receipt

  pub result_payload-Posting :
      (a : Agent F) (env : JobEnvelope) (s t : S) (request_raw : Bytes) (text : Json F)
      (body : Fields F)
      → result_payload net a env s t request_raw text ≡ some body
      → Posting a env s t request_raw text body
  unfolding result_payload
  result_payload-Posting a env s t request_raw text body h =
      elim (Option-cases (sealed_answer net env t text)) [
        | inl e ↦ absurd (ground (arith, e, h))
        | inr (sealed, e) ↦ elim (Option-cases (duration_of net (net.monotonic s) t)) [
          | inl f ↦ absurd (ground (arith, e, f, h))
          | inr (ms, f) ↦
              let made =
                build_receipt a env.job_id (net.iso_now s) (net.iso_now t) ms request_raw sealed in
              elim (Option-cases made) [
                | inl g ↦ absurd (ground (arith, e, f, g, h))
                | inr (receipt, g) ↦ record {
                  sealed = sealed;
                  sealed_as = e;
                  duration_ms = ms;
                  receipt = receipt;
                  receipt_as = g;
                  job_field = ground (arith, e, f, g, h);
                  blob_field = ground (arith, e, f, g, h);
                  receipt_field = ground (arith, e, f, g, h);
                }
              ]
        ]
      ]

module _ {F : Type 0} ⦃pl : Platform⦄ ⦃rt : Runtime F⦄
    (fetch : ℕ → String → Option (Fields F)) where
  -- The first node that the walk of the client lists under the agent's id has the agent's key.
  pub record IsListed (a : Agent F) : Type 0 where
    pub listed : List (Fields F)
    pub node : Fields F
    pub walked : nodes fetch (pos nodes_page_limit) ≡ some listed
    pub found : find_node (str a.node_id) listed ≡ some node
    pub key : key_of_record node ≡ a.verify_b64

  build_receipt-signed :
      (a : Agent F) (job_id started finished : String) (duration_ms : ℤ)
      (request_raw result_raw : Bytes) (signed : Fields F)
      → build_receipt a job_id started finished duration_ms request_raw result_raw ≡ some signed
      → (sig : Bytes) × (sign a.sign_b64 (
            canonical_json
              (obj (receipt_fields a job_id started finished duration_ms request_raw result_raw)))
          ≡ some sig)
  unfolding build_receipt
  build_receipt-signed a job_id started finished duration_ms request_raw result_raw signed h =
      let receipt = receipt_fields a job_id started finished duration_ms request_raw result_raw in
      elim (Option-cases (sign a.sign_b64 (canonical_json (obj receipt)))) [
        | inl e ↦ absurd (ground (arith, e, h))
        | inr (sig, e) ↦ (sig, e)
      ]

  verify_receipt-signed :
      (a : Agent F) (job_id started finished : String) (duration_ms : ℤ)
      (request_raw result_raw : Bytes) (signed : Fields F)
      → IsSignPair a.verify_b64 a.sign_b64
      → IsListed a
      → build_receipt a job_id started finished duration_ms request_raw result_raw ≡ some signed
      → (as_obj (get_field signed "receipt")
          ≡ some (receipt_fields a job_id started finished duration_ms request_raw result_raw))
        × (verify_receipt fetch job_id signed result_raw ≡ true)
  verify_receipt-signed a job_id started finished duration_ms request_raw result_raw signed k l h =
      let receipt = receipt_fields a job_id started finished duration_ms request_raw result_raw in
      let (sig, e) =
        build_receipt-signed a job_id started finished duration_ms request_raw result_raw signed
          h in
      let whole =
        build_receipt-parts fetch a job_id started finished duration_ms request_raw result_raw
          signed sig h e in
      let inner : as_obj (get_field signed "receipt") ≡ some receipt =
        ap (λ d. as_obj (get_field d "receipt")) (sym whole) in
      (
        inner,
        verify_receipt-of_Checked fetch job_id signed result_raw (record {
          receipt = receipt;
          inner = inner;
          sig_b64 = b64e sig;
          sig_text = ap (λ d. as_str (get_field d "sig")) (sym whole);
          sig = sig;
          sig_bytes = k.survives (canonical_json (obj receipt)) sig e;
          of_job = (eq_iff job_id job_id).1 refl;
          of_result = (eq_iff (pl.sha256_hex result_raw) (pl.sha256_hex result_raw)).1 refl;
          listed = l.listed;
          walked = l.walked;
          node = l.node;
          found = l.found;
          signed_by = rw l.key (k.accepts (canonical_json (obj receipt)) sig e);
        }),
      )

  text_of-answer :
      (text : Json F)
      → rt.loads_str (pl.decode_replace (pl.utf8 (rt.dumps (object (("text", text) ∷ [])))))
        ≡ some (object (("text", text) ∷ []))
      → text_of F (pl.utf8 (rt.dumps (object (("text", text) ∷ [])))) ≡ to_str text
  unfolding text_of
  text_of-answer text law = ground (arith, law)

  unsealed-answer :
      (reply_pub reply_prv : String) (text : Json F) (draw sealed : Bytes) (doc : Fields F)
      → IsBoxPair reply_pub reply_prv (pl.utf8 (rt.dumps (object (("text", text) ∷ []))))
      → rt.loads_str (pl.decode_replace (pl.utf8 (rt.dumps (object (("text", text) ∷ [])))))
        ≡ some (object (("text", text) ∷ []))
      → seal reply_pub draw (pl.utf8 (rt.dumps (object (("text", text) ∷ [])))) ≡ some sealed
      → get_field doc "blob_b64" ≡ str (b64e sealed)
      → (unsealed (reply_pub, reply_prv) doc ≡ some (sealed, to_str text))
        × (truthy (get_field doc "blob_b64") ≡ true)
  unfolding unsealed
  unsealed-answer reply_pub reply_prv text draw sealed doc k law e blob =
      let plain = pl.utf8 (rt.dumps (object (("text", text) ∷ []))) in
      let (_, lenient, some_text) =
        k.survives draw sealed (seal-IsBoxPair reply_pub reply_prv draw plain sealed k e) in
      let opens = unseal-IsBoxPair reply_pub reply_prv draw plain sealed k e in
      (
        ground (arith, blob, lenient, opens, text_of-answer text law),
        ground (arith, blob, some_text),
      )

  read_result-parts :
      (job_id text : String) (pair : String × String) (raw : Bytes) (doc signed receipt : Fields F)
      → unsealed pair doc ≡ some (raw, text)
      → truthy (get_field doc "blob_b64") ≡ true
      → get_field doc "receipt" ≡ obj signed
      → as_obj (get_field signed "receipt") ≡ some receipt
      → verify_receipt fetch job_id signed raw ≡ true
      → read_result fetch job_id pair doc ≡ returned (text, some receipt, true)
  unfolding read_result receipt_part
  read_result-parts job_id text pair raw doc signed receipt u b r i v =
      ground (arith, u, b, r, i, v)

module _ {F S : Type 0} ⦃pl : Platform⦄ ⦃rt : Runtime F⦄ (fetch : ℕ → String → Option (Fields F))
    (net : Net F S) where
  -- A client that reads a status document with the blob and the receipt that the node posted for
  -- its job returns the text that the engine gave, with the node's receipt, and calls it verified:
  -- if it has the private half of the job's reply key, the node is listed with its verify key, and
  -- json gives the text back as it was.
  pub read_result-result_payload :
      (a : Agent F) (env : JobEnvelope) (s t : S) (request_raw : Bytes) (text : Json F)
      (body doc : Fields F) (reply_prv : String)
      → IsBoxPair env.reply_pubkey reply_prv (pl.utf8 (rt.dumps (object (("text", text) ∷ []))))
      → IsSignPair a.verify_b64 a.sign_b64
      → IsListed fetch a
      → rt.loads_str (pl.decode_replace (pl.utf8 (rt.dumps (object (("text", text) ∷ [])))))
        ≡ some (object (("text", text) ∷ []))
      → result_payload net a env s t request_raw text ≡ some body
      → get_field doc "blob_b64" ≡ get_field body "blob_b64"
      → get_field doc "receipt" ≡ get_field body "receipt"
      → (receipt : Fields F) × (read_result fetch env.job_id (env.reply_pubkey, reply_prv) doc
          ≡ returned (to_str text, some receipt, true))
  unfolding sealed_answer
  read_result-result_payload a env s t request_raw text body doc reply_prv box pair l law made blob
        signed =
      let p = result_payload-Posting net a env s t request_raw text body made in
      let receipt =
        receipt_fields a env.job_id (net.iso_now s) (net.iso_now t) p.duration_ms request_raw
          p.sealed in
      let (inner, verified) =
        verify_receipt-signed fetch a env.job_id (net.iso_now s) (net.iso_now t) p.duration_ms
          request_raw p.sealed p.receipt pair l p.receipt_as in
      let (u, b) =
        unsealed-answer fetch env.reply_pubkey reply_prv text (net.entropy t 0) p.sealed doc box law
          p.sealed_as (blob ∙ p.blob_field) in
      (
        receipt,
        read_result-parts fetch env.job_id (to_str text) (env.reply_pubkey, reply_prv) p.sealed doc
            p.receipt receipt u b (signed ∙ p.receipt_field) inner verified,
      )
