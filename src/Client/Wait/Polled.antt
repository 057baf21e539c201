-- ===== src/Client/Wait/Polled.antt =====
-- What a poll of pygrid/client.py that returns a document has got from the coordinator.
use nycc_grid.Base.{ltb, leb, ℕ, String, ◌≡◌, refl, ◌⊎◌, inl, inr, true, ◌&&◌, some, [], ◌∷◌, arith}
use nycc_grid.Json.{Fields, obj, end}
use nycc_grid.Runtime.{Bytes, Platform, Runtime}
use nycc_grid.Crypto.{◌+++◌}
use nycc_grid.Net.{Call, Answer, Net, answered}
use nycc_grid.Client.Setup.{GridClient}
use nycc_grid.Client.Calls.{document_of, reply_document, request_of, call, status, returned}

module _ {F S : Type 0} ⦃pl : Platform⦄ ⦃rt : Runtime F⦄ (net : Net F S) where
  -- The request for the status of a job, as it goes out.
  abbrev pub status_call : GridClient F → String → Call F
  status_call c job_id = record {
    timeout = c.timeout;
    url = c.coordinator_url +++ ("/v1/jobs/" +++ pl.quote job_id);
    method = "GET";
    body = [];
    headers = ("Accept", "application/json") ∷ ("User-Agent", "nycc-client/0.1") ∷ [];
  }

  -- From the state `v` to the state `t`, the coordinator of the client answered the request for the
  -- status of the job with a code of success and the document, where no body is the empty document.
  pub record Polled (c : GridClient F) (v t : S) (job_id : String) (doc : Fields F) : Type 0 where
    pub code : ℕ
    pub raw : Bytes
    pub said : net.answer v (status_call c job_id) ≡ (t, answered (code, raw))
    pub success : (leb 200 code && ltb code 300) ≡ true
    pub content : ((raw ≡ []) × (doc ≡ end)) ⊎ (rt.loads raw ≡ some (obj doc))

  document_of-content :
      (url : String) (code : ℕ) (raw : Bytes) (doc : Fields F)
      → document_of url code raw ≡ returned doc
      → ((raw ≡ []) × (doc ≡ end)) ⊎ (rt.loads raw ≡ some (obj doc))
  unfolding document_of
  document_of-content url code [] doc h = inl (refl, ground (arith, h))
  document_of-content url code (b ∷ raw) doc h = inr (ground (arith, h))

  reply_document-content :
      (url : String) (reply : Answer) (doc : Fields F)
      → reply_document url reply ≡ returned doc
      → (code : ℕ) × (raw : Bytes) × (reply ≡ answered (code, raw))
        × ((leb 200 code && ltb code 300) ≡ true)
        × (document_of url code raw ≡ returned doc)
  unfolding reply_document
  reply_document-content url (answered (code, raw)) doc h =
      (code, raw, refl, ground (arith, h), ground (arith, h))
  reply_document-content url reply doc h = absurd (ground (arith, h))

  pub status-Polled :
      (c : GridClient F) (v : S) (job_id : String) (doc : Fields F)
      → (status net c v job_id).1 ≡ returned doc
      → Polled c v (status net c v job_id).0 job_id doc
  unfolding status call request_of
  status-Polled c v job_id doc h =
      let url = c.coordinator_url +++ ("/v1/jobs/" +++ pl.quote job_id) in
      let (code, raw, said, success, document) =
        reply_document-content url (net.answer v (status_call c job_id)).1 doc h in
      record {
        code = code;
        raw = raw;
        said = ground (arith, said);
        success = success;
        content = document_of-content url code raw doc document;
      }
