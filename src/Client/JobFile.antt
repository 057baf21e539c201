-- ===== src/Client/JobFile.antt =====
-- The job file of pygrid/client.py: the commands submit and result of its main, on the disk of the
-- keyfiles. What the commands print is left out.
pub mod Later
use nycc_grid.Base.{ℕ, String, Bool, Option, none, some, [], ◌∷◌, string_eq, pair_eq, nat_eq}
use nycc_grid.Base.Int.{ℤ}
use nycc_grid.Base.Dict.{put}
use nycc_grid.Json.{Fields, get_field, fields, as_str, str, obj}
use nycc_grid.Text.{◌>>=◌}
use nycc_grid.Runtime.{Platform, Runtime}
use nycc_grid.Net.{Net}
use nycc_grid.Crypto.{◌+++◌}
use nycc_grid.Club.Files.{Disk, read_dict}
use nycc_grid.Client.Setup.{GridClient}
use nycc_grid.Client.Calls.{Attempt, key_error, other_error, returned, raised}
use nycc_grid.Client.Submit.{adopt_reply_key, reply_key, submit}
use nycc_grid.Client.Answer.{result_with_receipt}

-- The arguments of the command submit, with the prompt that _read_prompt reads.
pub record SubmitArgs (F : Type 0) : Type 0 where
  pub prompt : String
  pub to_node : Option String
  pub max_tokens : ℤ
  pub temperature : F
  pub job_file : String

abbrev pub job_doc : {F : Type 0} → String → String × String → Fields F
job_doc job_id (reply_pub, reply_prv) = fields (
    ("job_id", str job_id) ∷ ("reply_pubkey", str reply_pub) ∷ ("reply_prvkey", str reply_prv) ∷ [])

module _ (F : Type 0) ⦃pl : Platform⦄ ⦃rt : Runtime F⦄ where
  -- `_write_job_file`
  unfoldable pub write_job_file : String → String → String × String → Disk → Disk
  write_job_file path job_id pair disk =
      put disk (pl.abspath path) (rt.dumps_indented (obj (job_doc {F = F} job_id pair)) +++ "\n")

  -- What the command result reads of a job file; none is an exception, or a field that is no text.
  unfoldable pub saved_job : String → Disk → Option (String × String × String)
  saved_job path disk = do
    saved ← read_dict {F = F} path disk
    job_id ← as_str (get_field saved "job_id")
    reply_pub ← as_str (get_field saved "reply_pubkey")
    reply_prv ← as_str (get_field saved "reply_prvkey")
    some (job_id, reply_pub, reply_prv)

  -- The end of the command submit, on the pair that `reply_key` gives for the job.
  unfoldable pub file_job :
      String → Disk → String → Option (String × String) → Disk × Attempt String
  file_job path disk job_id none = (disk, raised (key_error job_id))
  file_job path disk job_id (some pair) = (write_job_file path job_id pair disk, returned job_id)

module _ {F : Type 0} ⦃pl : Platform⦄ ⦃rt : Runtime F⦄ where
  abbrev pub file_submitted : String → Disk → GridClient F → Attempt String → Disk × Attempt String
  file_submitted path disk c (raised e) = (disk, raised e)
  file_submitted path disk c (returned job_id) = file_job F path disk job_id (reply_key c job_id)

module _ {F S : Type 0} ⦃pl : Platform⦄ ⦃rt : Runtime F⦄ (fetch : ℕ → String → Option (Fields F))
    (net : Net F S) where
  -- `main` on the command submit, with its client.
  unfoldable pub cmd_submit :
      GridClient F → S → Disk → SubmitArgs F → GridClient F × S × Disk × Attempt String
  cmd_submit c s disk args =
      let (d, t, got) =
        submit fetch net c s args.prompt args.to_node args.max_tokens args.temperature none in
      let (kept, outcome) = file_submitted args.job_file disk d got in (d, t, kept, outcome)

  -- `main` on the command result, for at most the given rounds of polling.
  unfoldable pub cmd_result :
      ℕ
      → GridClient F
      → S
      → Disk
      → String
      → F
      → S × Option (Attempt (String × Option (Fields F) × Bool))
  cmd_result rounds c s disk path timeout = elim (saved_job F path disk) [
    | none ↦ (s, some (raised other_error))
    | some (job_id, reply_pub, reply_prv) ↦
        result_with_receipt fetch net rounds (adopt_reply_key job_id (reply_pub, reply_prv) c) s
          job_id timeout
  ]
