-- ===== src/Client/Receipts.antt =====
-- Receipts from `build_receipt` of pygrid/node.py against `verify_receipt` of pygrid/client.py.
use nycc_grid.Base.{
  Bool-cases, ap, ◌∙◌, inl, inr, not, ◌++◌, ℕ, String, ◌≡◌, refl, sym, true, Option, some, List, [],
  ◌∷◌, arith, eq_iff,
}
use nycc_grid.Base.Int.{ℤ, pos}
use nycc_grid.Text.{all}
use nycc_grid.Json.{Json, Fields, get_field, fields, as_str, as_obj, is_str, str, obj}
use nycc_grid.Runtime.{Bytes, Platform, Runtime}
use nycc_grid.Crypto.{b64e, b64d, sign, verify, canonical_json}
use nycc_grid.Client.{
  nodes_page_limit, find_node, key_of_record, nodes, checked_receipt, verify_receipt,
}
use nycc_grid.Crypto.Wire.{js_round_trip, round_trip_fields}
use nycc_grid.Node.{Agent, receipt_fields, build_receipt}
use nycc_grid.Crypto.Canonical.{canonical_json-js_round_trip}

is_str-str : {F : Type 0} (v : Json F) (s : String) → is_str v s ≡ true → v ≡ str s
is_str-str (str t) s h = ap str ((eq_iff t s).0 h)
is_str-str v s h = absurd (ground (arith, h))

module _ {F : Type 0} ⦃pl : Platform⦄ ⦃rt : Runtime F⦄
    (fetch : ℕ → String → Option (Fields F)) where
  -- The parts of the check of a receipt.
  pub record Checked (job_id : String) (signed : Fields F) (result_raw : Bytes) : Type 0 where
    pub receipt : Fields F
    pub inner : as_obj (get_field signed "receipt") ≡ some receipt
    pub sig_b64 : String
    pub sig_text : as_str (get_field signed "sig") ≡ some sig_b64
    pub sig : Bytes
    pub sig_bytes : b64d sig_b64 ≡ some sig
    pub of_job : is_str (get_field receipt "job_id") job_id ≡ true
    pub of_result : is_str (get_field receipt "result_sha256") (pl.sha256_hex result_raw) ≡ true
    pub listed : List (Fields F)
    pub walked : nodes fetch (pos nodes_page_limit) ≡ some listed
    pub node : Fields F
    pub found : find_node (get_field receipt "node_id") listed ≡ some node
    pub signed_by : verify (key_of_record node) (canonical_json (obj receipt)) sig ≡ true

  verify_receipt-Checked :
      (job_id : String) (signed : Fields F) (result_raw : Bytes)
      → verify_receipt fetch job_id signed result_raw ≡ true
      → Checked job_id signed result_raw
  unfolding verify_receipt checked_receipt
  verify_receipt-Checked job_id signed result_raw h = ground arith

  -- What a receipt has shown when the client calls it verified: it names the job and the hash of
  -- the result in hand; a node of the id that the receipt names is in the node list, behind none of
  -- that id; and the listed key of that node verifies the signature over the canonical bytes of this
  -- very receipt.
  pub record Attested (job_id : String) (signed : Fields F) (result_raw : Bytes) : Type 0 where
    pub receipt : Fields F
    pub inner : get_field signed "receipt" ≡ obj receipt
    pub sig_b64 : String
    pub sig_text : get_field signed "sig" ≡ str sig_b64
    pub sig : Bytes
    pub sig_bytes : b64d sig_b64 ≡ some sig
    pub of_job : get_field receipt "job_id" ≡ str job_id
    pub of_result : get_field receipt "result_sha256" ≡ str (pl.sha256_hex result_raw)
    pub before : List (Fields F)
    pub node : Fields F
    pub behind : List (Fields F)
    pub listed : nodes fetch (pos nodes_page_limit) ≡ some (before ++ node ∷ behind)
    pub named : rt.same (get_field node "node_id") (get_field receipt "node_id") ≡ true
    pub first :
        all (λ n. not (rt.same (get_field n "node_id") (get_field receipt "node_id"))) before ≡ true
    pub signed_by : verify (key_of_record node) (canonical_json (obj receipt)) sig ≡ true

  find_node-split :
      (id : Json F) (node : Fields F) (listed : List (Fields F))
      → find_node id listed ≡ some node
      → (before : List (Fields F)) × (behind : List (Fields F)) × (listed ≡ before ++ node ∷ behind)
        × (rt.same (get_field node "node_id") id ≡ true)
        × (all (λ n. not (rt.same (get_field n "node_id") id)) before ≡ true)
  unfolding find_node
  find_node-split id node [] h = absurd (ground (arith, h))
  find_node-split id node (n ∷ ns) h = elim (Bool-cases (rt.same (get_field n "node_id") id)) [
    | inl e ↦
        let same : n ≡ node = ground (arith, e, h) in
        ([], ns, ap (λ m. m ∷ ns) same, rw (← same) e, refl)
    | inr e ↦
        let (before, behind, whole, named, first) =
          find_node-split id node ns (ground (arith, e, h)) in
        (n ∷ before, behind, ap (λ ms. n ∷ ms) whole, named, ground (arith, e, first))
  ]

  -- A receipt that the client calls verified is attested for this job and this result: it names
  -- them, the first listed node of the id that it names has a key that verifies its signature.
  pub verify_receipt-Attested :
      (job_id : String) (signed : Fields F) (result_raw : Bytes)
      → verify_receipt fetch job_id signed result_raw ≡ true
      → Attested job_id signed result_raw
  verify_receipt-Attested job_id signed result_raw h =
      let c = verify_receipt-Checked job_id signed result_raw h in
      let (before, behind, whole, named, first) =
        find_node-split (get_field c.receipt "node_id") c.node c.listed c.found in
      record {
        receipt = c.receipt;
        inner = ground (arith, c.inner);
        sig_b64 = c.sig_b64;
        sig_text = ground (arith, c.sig_text);
        sig = c.sig;
        sig_bytes = c.sig_bytes;
        of_job = is_str-str (get_field c.receipt "job_id") job_id c.of_job;
        of_result =
            is_str-str (get_field c.receipt "result_sha256") (pl.sha256_hex result_raw) c.of_result;
        before = before;
        node = c.node;
        behind = behind;
        listed = c.walked ∙ ap some whole;
        named = named;
        first = first;
        signed_by = c.signed_by;
      }

  round_trip_receipt :
      (receipt : Fields F) (sig : Bytes) (signed : Fields F)
      → signed ≡ fields (("receipt", obj receipt) ∷ ("sig", str (b64e sig)) ∷ [])
      → (as_obj (get_field (round_trip_fields signed) "receipt") ≡ some (round_trip_fields receipt))
        × (as_str (get_field (round_trip_fields signed) "sig") ≡ some (b64e sig))
  unfolding js_round_trip
  round_trip_receipt receipt sig signed e = rw e (refl, refl)

  pub build_receipt-parts :
      (a : Agent F) (job_id started finished : String) (duration_ms : ℤ)
      (request_raw result_raw : Bytes) (signed : Fields F) (sig : Bytes)
      → build_receipt a job_id started finished duration_ms request_raw result_raw ≡ some signed
      → sign a.sign_b64 (
          canonical_json
            (obj (receipt_fields a job_id started finished duration_ms request_raw result_raw)))
        ≡ some sig
      → fields (
          (
            "receipt",
            obj (receipt_fields a job_id started finished duration_ms request_raw result_raw),
          )
          ∷ ("sig", str (b64e sig))
          ∷ [])
        ≡ signed
  unfolding build_receipt
  build_receipt-parts a job_id started finished duration_ms request_raw result_raw signed sig h e =
      ground arith

  pub verify_receipt-of_Checked :
      (job_id : String) (signed : Fields F) (result_raw : Bytes)
      → Checked job_id signed result_raw
      → verify_receipt fetch job_id signed result_raw ≡ true
  unfolding verify_receipt checked_receipt
  verify_receipt-of_Checked job_id signed result_raw h = ground (
    arith, h.inner, h.sig_text, h.sig_bytes, h.of_job, h.of_result, h.walked, h.found, h.signed_by,
  )

  -- The receipt that a node builds for a job, after `js_round_trip` of testkit, is verified by a
  -- client that has the same result in hand, if the first node listed under the node's id has the
  -- node's verify key, that key accepts the signature made and the signature survives base64.
  pub verify_receipt-build_receipt :
      (a : Agent F) (job_id started finished : String) (duration_ms : ℤ)
      (request_raw result_raw sig : Bytes) (signed node : Fields F) (listed : List (Fields F))
      → build_receipt a job_id started finished duration_ms request_raw result_raw ≡ some signed
      → sign a.sign_b64 (
          canonical_json
            (obj (receipt_fields a job_id started finished duration_ms request_raw result_raw)))
        ≡ some sig
      → verify a.verify_b64
          (canonical_json
            (obj (receipt_fields a job_id started finished duration_ms request_raw result_raw)))
          sig
        ≡ true
      → b64d (b64e sig) ≡ some sig
      → nodes fetch (pos nodes_page_limit) ≡ some listed
      → find_node (str a.node_id) listed ≡ some node
      → key_of_record node ≡ a.verify_b64
      → verify_receipt fetch job_id (round_trip_fields signed) result_raw ≡ true
  unfolding js_round_trip
  verify_receipt-build_receipt a job_id started finished duration_ms request_raw result_raw sig
        signed node listed made signed_by verified text walk found key =
      let receipt = receipt_fields a job_id started finished duration_ms request_raw result_raw in
      let whole =
        build_receipt-parts a job_id started finished duration_ms request_raw result_raw signed sig
          made signed_by in
      let (inner, sig_text) = round_trip_receipt receipt sig signed (sym whole) in
      verify_receipt-of_Checked job_id (round_trip_fields signed) result_raw (record {
        receipt = round_trip_fields receipt;
        inner = inner;
        sig_b64 = b64e sig;
        sig_text = sig_text;
        sig = sig;
        sig_bytes = text;
        of_job = (eq_iff job_id job_id).1 refl;
        of_result = (eq_iff (pl.sha256_hex result_raw) (pl.sha256_hex result_raw)).1 refl;
        listed = listed;
        walked = walk;
        node = node;
        found = found;
        signed_by = rw (key, canonical_json-js_round_trip (obj receipt)) verified;
      })
