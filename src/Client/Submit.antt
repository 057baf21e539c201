-- ===== src/Client/Submit.antt =====
-- `submit` of GridClient in pygrid/client.py, and the book of reply keys.
pub mod Keys
use nycc_grid.Base.{
  if◌then◌else◌, ℕ, String, true, not, ◌||◌, Option, none, some, List, [], ◌∷◌, string_eq, pair_eq,
  nat_eq,
}
use nycc_grid.Base.Int.{ℤ}
use nycc_grid.Base.Dict.{get, put, has}
use nycc_grid.Json.{Json, Fields, get_field, fields, as_str, nonempty, int, float, str, obj}
use nycc_grid.Text.{◌>>=◌}
use nycc_grid.Runtime.{Bytes, Platform, Runtime, truthy}
use nycc_grid.Net.{Net}
use nycc_grid.Crypto.{b64e}
use nycc_grid.Crypto.Box.{keygen, seal}
use nycc_grid.Client.Setup.{GridClient}
use nycc_grid.Client.Calls.{Attempt, call, coordinator_error, other_error, returned, raised}
use nycc_grid.Client.Choice.{node_record}

module _ {F : Type 0} where
  -- `self._reply_keys.setdefault(job_id, pair)`
  unfoldable pub keep_reply_key : String → String × String → GridClient F → GridClient F
  keep_reply_key job_id pair c =
      if has c.reply_keys job_id then c else record c { reply_keys = put c.reply_keys job_id pair }

  -- `adopt_reply_key`
  unfoldable pub adopt_reply_key : String → String × String → GridClient F → GridClient F
  adopt_reply_key job_id pair c = record c { reply_keys = put c.reply_keys job_id pair }

  -- `reply_key`; none is the KeyError.
  unfoldable pub reply_key : GridClient F → String → Option (String × String)
  reply_key c job_id = get c.reply_keys job_id

module _ {F : Type 0} ⦃pl : Platform⦄ ⦃rt : Runtime F⦄ where
  abbrev pub prompt_payload : String → ℤ → F → Fields F
  prompt_payload prompt max_tokens temperature = fields (
      ("prompt", str prompt)
      ∷ ("max_tokens", int max_tokens)
      ∷ ("temperature", float temperature)
      ∷ [])

  -- `body["idempotency_key"] = idempotency_key`, if there is one.
  abbrev pub idempotency_part : Option String → List (String × Json F)
  idempotency_part none = []
  idempotency_part (some key) = if nonempty key then ("idempotency_key", str key) ∷ [] else []

  -- The body of the submission to a listed node; none is an exception.
  unfoldable pub submission :
      Fields F → String → Bytes → Fields F → Option String → Option (Fields F)
  submission node reply_pub draw payload idempotency_key =
      if not (truthy (get_field node "pubkey")) || not (truthy (get_field node "node_id"))
      then none
      else do
        pubkey ← as_str (get_field node "pubkey")
        blob ← seal pubkey draw (pl.utf8 (rt.dumps (obj payload)))
        some (
            fields (
              ("to_node", get_field node "node_id")
              ∷ ("blob_b64", str (b64e blob))
              ∷ ("reply_pubkey", str reply_pub)
              ∷ idempotency_part idempotency_key))

  -- The id in the reply, which has to be a text that is not empty.
  abbrev pub filed_id :
      String × String → GridClient F → Option String → GridClient F × Attempt String
  filed_id pair c none = (c, raised (coordinator_error 200 "/v1/jobs"))
  filed_id pair c (some job_id) =
      if not (nonempty job_id)
      then (c, raised (coordinator_error 200 "/v1/jobs"))
      else (keep_reply_key job_id pair c, returned job_id)

  -- What `submit` does with the return of its call.
  unfoldable pub filed_reply :
      String × String → GridClient F → Attempt (Fields F) → GridClient F × Attempt String
  filed_reply pair c (raised e) = (c, raised e)
  filed_reply pair c (returned doc) = filed_id pair c (as_str (get_field doc "job_id"))

module _ {F S : Type 0} ⦃pl : Platform⦄ ⦃rt : Runtime F⦄ (fetch : ℕ → String → Option (Fields F))
    (net : Net F S) where
  -- The end of `submit`, with the pair of reply keys; no body where an exception came before.
  unfoldable pub send_submission :
      GridClient F → S → String × String → Option (Fields F) → GridClient F × S × Attempt String
  send_submission c s pair none = (c, s, raised other_error)
  send_submission c s pair (some body) =
      let (t, got) = call net c s "POST" "/v1/jobs" (some body) true in
      let (d, job_id) = filed_reply pair c got in (d, t, job_id)

  -- `submit`; its reply keys take the first draw and the sealed box the second.
  unfoldable pub submit :
      GridClient F
      → S
      → String
      → Option String
      → ℤ
      → F
      → Option String
      → GridClient F × S × Attempt String
  submit c s prompt to_node max_tokens temperature idempotency_key =
      let pair = keygen (net.entropy s 0) in
      send_submission c s pair (do
        node ← node_record fetch to_node
        submission node pair.0 (net.entropy s 1) (prompt_payload prompt max_tokens temperature)
            idempotency_key)
