-- ===== src/Client/Submit/Keys.antt =====
-- The reply keys that `submit` of pygrid/client.py keeps.
use nycc_grid.Base.{
  Bool-cases, Option-cases, ◌==◌, ℕ, String, ◌≡◌, refl, inl, inr, true, false, Option, none, some,
  arith, eq_iff, string_eq, pair_eq, nat_eq,
}
use nycc_grid.Base.Int.{ℤ}
use nycc_grid.Base.Dict.{get, get-put}
use nycc_grid.Json.{Fields, get_field, as_str, nonempty}
use nycc_grid.Text.{◌>>=◌}
use nycc_grid.Runtime.{Platform, Runtime}
use nycc_grid.Net.{Net}
use nycc_grid.Crypto.Box.{keygen}
use nycc_grid.Client.Setup.{GridClient}
use nycc_grid.Client.Calls.{Attempt, call, returned, raised}
use nycc_grid.Client.Choice.{node_record}
use nycc_grid.Client.Submit.{
  keep_reply_key, reply_key, prompt_payload, submission, filed_id, filed_reply, send_submission,
  submit,
}

module _ {F : Type 0} where
  -- The book of reply keys after a submission: the job has the pair that it had, or the new one if
  -- it had none, and no other job's pair has changed.
  pub record Kept (pair : String × String) (job_id : String) (c d : GridClient F) : Type 0 where
    pub of_job :
        reply_key d job_id ≡ some (elim (reply_key c job_id) [ none ↦ pair | some old ↦ old ])
    pub of_others : (j : String) → (job_id == j) ≡ false → reply_key d j ≡ reply_key c j

  keep_reply_key-Kept :
      (pair : String × String) (job_id : String) (c : GridClient F)
      → Kept pair job_id c (keep_reply_key job_id pair c)
  unfolding reply_key keep_reply_key
  keep_reply_key-Kept pair job_id c = elim (Option-cases (get c.reply_keys job_id)) [
    | inl e ↦ record {
      of_job =
          ground (arith, e, get-put c.reply_keys job_id job_id pair, (eq_iff job_id job_id).1 refl);
      of_others = λ j other. ground (arith, e, other, get-put c.reply_keys job_id j pair);
    }
    | inr (old, e) ↦ record { of_job = ground (arith, e); of_others = λ j other. ground (arith, e) }
  ]

  -- What a submission leaves in the book: the key of the job that it returns, and no change if it
  -- raises.
  abbrev pub KeysAfter : String × String → GridClient F → GridClient F → Attempt String → Type 0
  KeysAfter pair c d (returned job_id) = Kept pair job_id c d
  KeysAfter pair c d (raised e) = d ≡ c

module _ {F : Type 0} ⦃pl : Platform⦄ ⦃rt : Runtime F⦄ where
  named_KeysAfter :
      (pair : String × String) (c : GridClient F) (job_id : Option String)
      → KeysAfter pair c (filed_id pair c job_id).0 (filed_id pair c job_id).1
  named_KeysAfter pair c none = refl
  named_KeysAfter pair c (some job_id) = elim (Bool-cases (nonempty job_id)) [
    | inl h ↦ rw h (keep_reply_key-Kept pair job_id c)
    | inr h ↦ rw h refl
  ]

  filed_reply-KeysAfter :
      (pair : String × String) (c : GridClient F) (got : Attempt (Fields F))
      → KeysAfter pair c (filed_reply pair c got).0 (filed_reply pair c got).1
  unfolding filed_reply
  filed_reply-KeysAfter pair c (raised e) = refl
  filed_reply-KeysAfter pair c (returned doc) =
      named_KeysAfter pair c (as_str (get_field doc "job_id"))

module _ {F S : Type 0} ⦃pl : Platform⦄ ⦃rt : Runtime F⦄ (fetch : ℕ → String → Option (Fields F))
    (net : Net F S) where
  send_submission-KeysAfter :
      (c : GridClient F) (s : S) (pair : String × String) (body : Option (Fields F))
      → KeysAfter pair c
          (send_submission fetch net c s pair body).0
          (send_submission fetch net c s pair body).2
  unfolding send_submission
  send_submission-KeysAfter c s pair none = refl
  send_submission-KeysAfter c s pair (some body) =
      filed_reply-KeysAfter pair c (call net c s "POST" "/v1/jobs" (some body) true).1

  -- A submission that returns a job's id leaves the reply keys that the client had for that job,
  -- or the pair that it has just made if it had none, and every other job's pair as it was; one
  -- that raises leaves the client as it was.
  pub submit-KeysAfter :
      (c : GridClient F) (s : S) (prompt : String) (to_node : Option String) (max_tokens : ℤ)
      (temperature : F) (idempotency_key : Option String)
      → KeysAfter
          (keygen (net.entropy s 0))
          c
          (submit fetch net c s prompt to_node max_tokens temperature idempotency_key).0
          (submit fetch net c s prompt to_node max_tokens temperature idempotency_key).2
  unfolding submit
  submit-KeysAfter c s prompt to_node max_tokens temperature idempotency_key =
      let pair = keygen (net.entropy s 0) in
      send_submission-KeysAfter c s pair (do
        node ← node_record fetch to_node
        submission node pair.0 (net.entropy s 1) (prompt_payload prompt max_tokens temperature)
            idempotency_key)
