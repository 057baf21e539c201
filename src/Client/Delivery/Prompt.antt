-- ===== src/Client/Delivery/Prompt.antt =====
-- The prompt that `submit` of pygrid/client.py seals, as `process` of pygrid/node.py opens it.
use nycc_grid.Base.{Option-cases, String, ◌≡◌, inl, inr, Option, some, arith}
use nycc_grid.Base.Int.{ℤ}
use nycc_grid.Json.{Fields, get_field, as_str, obj}
use nycc_grid.Runtime.{Bytes, Platform, Runtime}
use nycc_grid.Crypto.{b64e}
use nycc_grid.Crypto.Pairs.{IsBoxPair, seal-IsBoxPair, unseal-IsBoxPair}
use nycc_grid.Crypto.Box.{seal}
use nycc_grid.Protocol.{JobEnvelope}
use nycc_grid.Node.{Agent}
use nycc_grid.Node.Work.{opened}
use nycc_grid.Client.Submit.{prompt_payload, submission}

module _ {F : Type 0} ⦃pl : Platform⦄ ⦃rt : Runtime F⦄ where
  -- A submission is made of a sealed blob.
  submission-sealed :
      (node payload : Fields F) (reply_pub pubkey : String) (draw : Bytes)
      (idempotency_key : Option String) (body : Fields F)
      → submission node reply_pub draw payload idempotency_key ≡ some body
      → as_str (get_field node "pubkey") ≡ some pubkey
      → (sealed : Bytes) × (seal pubkey draw (pl.utf8 (rt.dumps (obj payload))) ≡ some sealed)
        × (as_str (get_field body "blob_b64") ≡ some (b64e sealed))
        × (as_str (get_field body "reply_pubkey") ≡ some reply_pub)
        × (get_field body "to_node" ≡ get_field node "node_id")
  unfolding submission
  submission-sealed node payload reply_pub pubkey draw idempotency_key body h k =
      elim (Option-cases (seal pubkey draw (pl.utf8 (rt.dumps (obj payload))))) [
        | inl e ↦ absurd (ground (arith, e, h, k))
        | inr (sealed, e) ↦
            (sealed, e, ground (arith, e, h, k), ground (arith, e, h, k), ground (arith, e, h, k))
      ]

  -- The node whose box key the client sealed its prompt to opens the submitted blob, with its own
  -- pair of keys, to the very payload of the client: the prompt, max_tokens and the temperature.
  pub opened-submission :
      (a : Agent F) (env : JobEnvelope) (node : Fields F) (prompt reply_pub : String)
      (max_tokens : ℤ) (temperature : F) (draw : Bytes) (idempotency_key : Option String)
      (body : Fields F)
      → IsBoxPair a.box_pub_b64 a.box_prv_b64
          (pl.utf8 (rt.dumps (obj (prompt_payload prompt max_tokens temperature))))
      → rt.loads (pl.utf8 (rt.dumps (obj (prompt_payload prompt max_tokens temperature))))
        ≡ some (obj (prompt_payload prompt max_tokens temperature))
      → as_str (get_field node "pubkey") ≡ some a.box_pub_b64
      → submission node reply_pub draw
          (prompt_payload prompt max_tokens temperature)
          idempotency_key
        ≡ some body
      → as_str (get_field body "blob_b64") ≡ some env.blob_b64
      → (request_raw : Bytes) × (opened a env
          ≡ some (request_raw, obj (prompt_payload prompt max_tokens temperature)))
  unfolding opened
  opened-submission a env node prompt reply_pub max_tokens temperature draw idempotency_key body k
        law listed made carried =
      let payload = prompt_payload prompt max_tokens temperature in
      let plain = pl.utf8 (rt.dumps (obj payload)) in
      let (sealed, e, blob, _, _) =
        submission-sealed node payload reply_pub a.box_pub_b64 draw idempotency_key body made
          listed in
      let opens = unseal-IsBoxPair a.box_pub_b64 a.box_prv_b64 draw plain sealed k e in
      let text =
        k.survives draw sealed (seal-IsBoxPair a.box_pub_b64 a.box_prv_b64 draw plain sealed k e) in
      (sealed, ground (arith, blob, carried, text, opens, law))
