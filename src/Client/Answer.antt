-- ===== src/Client/Answer.antt =====
-- `result_with_receipt`, `result` and `run` of GridClient in pygrid/client.py.
pub mod Trusted
use mathlib.Core.Option
use nycc_grid.Base.{
  if◌then◌else◌, ℕ, String, Bool, false, not, Option, none, some, string_eq, pair_eq, nat_eq,
}
use nycc_grid.Base.Int.{ℤ}
use nycc_grid.Base.Dict.{get}
use nycc_grid.Json.{Json, Fields, get_field, has_field, as_str, as_obj, str, obj}
use nycc_grid.Text.{◌>>=◌, to_str}
use nycc_grid.Runtime.{Bytes, Platform, Runtime, truthy}
use nycc_grid.Net.{Net}
use nycc_grid.Crypto.Box.{unseal}
use nycc_grid.Client.{verify_receipt}
use nycc_grid.Client.Setup.{GridClient}
use nycc_grid.Client.Calls.{Attempt, coordinator_error, key_error, other_error, returned, raised}
use nycc_grid.Client.Submit.{submit}
use nycc_grid.Client.Wait.{await_done}

-- `_text_of`
unfoldable pub text_of : (F : Type 0) ⦃pl : Platform⦄ ⦃rt : Runtime F⦄ → Bytes → String
text_of F ⦃pl⦄ ⦃rt⦄ plain =
    let body = pl.decode_replace plain in
    elim (rt.loads_str body) [
      | none ↦ body
      | some (obj doc) ↦ if has_field doc "text" then to_str (get_field doc "text") else body
      | some (str s) ↦ s
      | some _ ↦ body
    ]

module _ {F : Type 0} ⦃pl : Platform⦄ ⦃rt : Runtime F⦄ where
  -- The ciphertext in a status document and the text inside; none is an exception.
  unfoldable pub unsealed : String × String → Fields F → Option (Bytes × String)
  unsealed (reply_pub, reply_prv) doc = do
    blob_b64 ← as_str (get_field doc "blob_b64")
    raw ← pl.b64decode_lenient blob_b64
    plain ← unseal reply_prv reply_pub raw
    some (raw, text_of F plain)

module _ {F : Type 0} ⦃pl : Platform⦄ ⦃rt : Runtime F⦄
    (fetch : ℕ → String → Option (Fields F)) where
  -- The receipt of a status document, and whether it is verified.
  unfoldable pub receipt_part : String → Json F → Bytes → Option (Fields F) × Bool
  receipt_part job_id (obj signed) raw = elim (as_obj (get_field signed "receipt")) [
    | none ↦ (none, false)
    | some receipt ↦ (some receipt, verify_receipt fetch job_id signed raw)
  ]
  receipt_part job_id _ raw = (none, false)

  -- The end of `result_with_receipt`, on the document of a job that is done.
  unfoldable pub read_result :
      String → String × String → Fields F → Attempt (String × Option (Fields F) × Bool)
  read_result job_id pair doc =
      if not (truthy (get_field doc "blob_b64"))
      then raised (coordinator_error 200 job_id)
      else elim (unsealed pair doc) [
        | none ↦ raised other_error
        | some (raw, text) ↦
            let (receipt, verified) = receipt_part job_id (get_field doc "receipt") raw in
            returned (text, receipt, verified)
      ]

  abbrev pub read_outcome :
      String → String × String → Attempt (Fields F) → Attempt (String × Option (Fields F) × Bool)
  read_outcome job_id pair (raised e) = raised e
  read_outcome job_id pair (returned doc) = read_result job_id pair doc

module _ {F S : Type 0} ⦃pl : Platform⦄ ⦃rt : Runtime F⦄ (fetch : ℕ → String → Option (Fields F))
    (net : Net F S) where
  -- `result_with_receipt`, for at most the given rounds of polling; none where they are used up.
  unfoldable pub result_with_receipt :
      ℕ → GridClient F → S → String → F → S × Option (Attempt (String × Option (Fields F) × Bool))
  result_with_receipt rounds c s job_id timeout = elim (get c.reply_keys job_id) [
    | none ↦ (s, some (raised (key_error job_id)))
    | some pair ↦
        let (t, outcome) = await_done net rounds c s job_id timeout in
        (t, Option.map (read_outcome fetch job_id pair) outcome)
  ]

  abbrev pub text_part : Attempt (String × Option (Fields F) × Bool) → Attempt String
  text_part (raised e) = raised e
  text_part (returned (text, receipt, verified)) = returned text

  unfoldable pub result : ℕ → GridClient F → S → String → F → S × Option (Attempt String)
  result rounds c s job_id timeout =
      let (t, outcome) = result_with_receipt rounds c s job_id timeout in
      (t, Option.map text_part outcome)

  abbrev pub awaited :
      ℕ → F → GridClient F × S × Attempt String → GridClient F × S × Option (Attempt String)
  awaited rounds timeout (c, s, raised e) = (c, s, some (raised e))
  awaited rounds timeout (c, s, returned job_id) =
      let (t, outcome) = result rounds c s job_id timeout in (c, t, outcome)

  -- `run`
  unfoldable pub run :
      ℕ
      → GridClient F
      → S
      → String
      → Option String
      → ℤ
      → F
      → F
      → GridClient F × S × Option (Attempt String)
  run rounds c s prompt to_node max_tokens temperature timeout =
      awaited rounds timeout (submit fetch net c s prompt to_node max_tokens temperature none)
