-- ===== src/Client/Answer/Trusted.antt =====
-- What a verified result of `result_with_receipt` of pygrid/client.py stands for.
use nycc_grid.Base.{
  Bool-cases, Option-cases, ℕ, String, ◌≡◌, refl, inl, inr, true, Option, some, arith, string_eq,
  pair_eq, nat_eq,
}
use nycc_grid.Base.Dict.{get}
use nycc_grid.Json.{Json, Fields, get_field, as_obj, is_str, obj}
use nycc_grid.Runtime.{Bytes, Platform, Runtime, truthy}
use nycc_grid.Net.{Net}
use nycc_grid.Client.{verify_receipt}
use nycc_grid.Client.Setup.{GridClient}
use nycc_grid.Client.Calls.{returned, raised}
use nycc_grid.Client.Wait.{await_until, await_done}
use nycc_grid.Client.Wait.Polled.{Polled}
use nycc_grid.Client.Wait.Ends.{await_until-Verdict}
use nycc_grid.Client.Answer.{unsealed, receipt_part, read_result, result_with_receipt}
use nycc_grid.Client.Receipts.{Attested, verify_receipt-Attested}

module _ {F : Type 0} ⦃pl : Platform⦄ ⦃rt : Runtime F⦄
    (fetch : ℕ → String → Option (Fields F)) where
  -- A verified result in a status document: it says that the job is done, the text is what the reply
  -- keys opened in its blob, and the receipt is attested for this job and this very blob.
  pub record Trusted (job_id : String) (pair : String × String) (doc : Fields F) (text : String)
      (receipt : Fields F) : Type 0 where
    pub is_finished : is_str (get_field doc "status") "done" ≡ true
    pub raw : Bytes
    pub opened : unsealed pair doc ≡ some (raw, text)
    pub signed : Fields F
    pub carried : get_field doc "receipt" ≡ obj signed
    pub inner : as_obj (get_field signed "receipt") ≡ some receipt
    pub attested : Attested fetch job_id signed raw

  receipt_part-verified :
      (job_id : String) (value : Json F) (raw : Bytes) (receipt : Fields F)
      → receipt_part fetch job_id value raw ≡ (some receipt, true)
      → (signed : Fields F) × (value ≡ obj signed)
        × (as_obj (get_field signed "receipt") ≡ some receipt)
        × (verify_receipt fetch job_id signed raw ≡ true)
  unfolding receipt_part
  receipt_part-verified job_id (obj signed) raw receipt h =
      (signed, refl, ground (arith, h), ground (arith, h))
  receipt_part-verified job_id value raw receipt h = absurd (ground (arith, h))

  read_result-Trusted :
      (job_id : String) (pair : String × String) (doc : Fields F) (text : String)
      (receipt : Fields F)
      → is_str (get_field doc "status") "done" ≡ true
      → read_result fetch job_id pair doc ≡ returned (text, some receipt, true)
      → Trusted job_id pair doc text receipt
  unfolding read_result
  read_result-Trusted job_id pair doc text receipt done h =
      elim (Bool-cases (truthy (get_field doc "blob_b64"))) [
        | inr e ↦ absurd (ground (arith, e, h))
        | inl e ↦ elim (Option-cases (unsealed pair doc)) [
          | inl u ↦ absurd (ground (arith, e, u, h))
          | inr ((raw, opened_text), u) ↦
              let (signed, carried, inner, verified) =
                receipt_part-verified job_id (get_field doc "receipt") raw receipt
                  (ground (arith, e, u, h)) in
              record {
                is_finished = done;
                raw = raw;
                opened = ground (arith, e, u, h);
                signed = signed;
                carried = carried;
                inner = inner;
                attested = verify_receipt-Attested fetch job_id signed raw verified;
              }
        ]
      ]

module _ {F S : Type 0} ⦃pl : Platform⦄ ⦃rt : Runtime F⦄ (fetch : ℕ → String → Option (Fields F))
    (net : Net F S) where
  -- A result that the client returns as verified comes from the answer of its coordinator to the
  -- last request for the status of this job: the answer says that the job is done, the text is what
  -- the client's reply keys for the job opened in the blob of that answer, and its receipt is signed
  -- by a listed node for this job and the hash of this very blob.
  pub result_with_receipt-Trusted :
      (rounds : ℕ) (c : GridClient F) (s t : S) (job_id : String) (timeout : F) (text : String)
      (receipt : Fields F)
      → result_with_receipt fetch net rounds c s job_id timeout
        ≡ (t, some (returned (text, some receipt, true)))
      → (pair : String × String) × (get c.reply_keys job_id ≡ some pair)
        × (v : S) × (doc : Fields F) × Polled net c v t job_id doc
        × Trusted fetch job_id pair doc text receipt
  unfolding result_with_receipt await_done
  result_with_receipt-Trusted rounds c s t job_id timeout text receipt h =
      let deadline = rt.add (net.monotonic s) timeout in
      let waited = await_until net rounds c s job_id deadline in
      elim (Option-cases (get c.reply_keys job_id)) [
        | inl e ↦ absurd (ground (arith, e, h))
        | inr (pair, e) ↦ elim (Option-cases waited.1) [
          | inl w ↦ absurd (ground (arith, e, w, h))
          | inr (raised x, w) ↦ absurd (ground (arith, e, w, h))
          | inr (returned doc, w) ↦
              let (v, (polled, finished)) =
                await_until-Verdict net rounds c s t job_id deadline (returned doc)
                  (ground (arith, e, w, h)) in
              (
                pair,
                e,
                v,
                doc,
                polled,
                read_result-Trusted fetch job_id pair doc text receipt finished
                    (ground (arith, e, w, h)),
              )
        ]
      ]
