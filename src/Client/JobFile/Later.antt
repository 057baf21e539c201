-- ===== src/Client/JobFile/Later.antt =====
-- What the command result of pygrid/client.py, run later, makes of the job file of submit.
use nycc_grid.Base.{
  Option-cases, ℕ, zero, suc, String, ◌≡◌, refl, ◌∙◌, inl, inr, Option, none, some, arith, eq_iff,
  string_eq, pair_eq, nat_eq,
}
use nycc_grid.Base.Dict.{get, put, get-put}
use nycc_grid.Json.{Fields, obj}
use nycc_grid.Runtime.{Platform, Runtime}
use nycc_grid.Net.{Net}
use nycc_grid.Crypto.{◌+++◌}
use nycc_grid.Client.Setup.{GridClient}
use nycc_grid.Client.Calls.{Attempt, request_of, call, status, returned, raised}
use nycc_grid.Client.Wait.{Round-cases, poll, await_until, await_done}
use nycc_grid.Client.Answer.{result_with_receipt}
use nycc_grid.Client.JobFile.{
  SubmitArgs, job_doc, write_job_file, saved_job, file_job, file_submitted, cmd_submit, cmd_result,
}
use nycc_grid.Client.Submit.{adopt_reply_key, reply_key, submit}
use nycc_grid.Club.Files.{Disk, read_dict}

module _ {F S : Type 0} ⦃pl : Platform⦄ ⦃rt : Runtime F⦄ (net : Net F S) where
  -- The polling reads nothing of the client but the url of its coordinator and its timeout.
  poll_alike :
      (c d : GridClient F) (s : S) (job_id : String) (deadline : F)
      → (c.coordinator_url ≡ d.coordinator_url) × (c.timeout ≡ d.timeout)
      → poll net c s job_id deadline ≡ poll net d s job_id deadline
  unfolding poll status call request_of
  poll_alike c d s job_id deadline (url, limit) = rw url (rw limit refl)

  await_until_alike :
      (rounds : ℕ) (c d : GridClient F) (s : S) (job_id : String) (deadline : F)
      → (c.coordinator_url ≡ d.coordinator_url) × (c.timeout ≡ d.timeout)
      → await_until net rounds c s job_id deadline ≡ await_until net rounds d s job_id deadline
  unfolding await_until
  await_until_alike zero c d s job_id deadline same = refl
  await_until_alike (suc rounds) c d s job_id deadline same =
      let polls = poll_alike c d s job_id deadline same in
      elim (Round-cases (poll net d s job_id deadline).1) [
        | inl (o, e) ↦ ground (arith, polls, e)
        | inr (seconds, e) ↦ ground (
          arith,
          polls,
          e,
          await_until_alike rounds c d (net.sleep seconds (poll net d s job_id deadline).0) job_id
              deadline same,
        )
      ]

module _ {F S : Type 0} ⦃pl : Platform⦄ ⦃rt : Runtime F⦄ (fetch : ℕ → String → Option (Fields F))
    (net : Net F S) where
  -- Two clients of one coordinator with the same timeout and the same reply keys for a job get the same result for it.
  result_with_receipt_alike :
      (rounds : ℕ) (c d : GridClient F) (s : S) (job_id : String) (timeout : F)
      → (c.coordinator_url ≡ d.coordinator_url) × (c.timeout ≡ d.timeout)
      → get c.reply_keys job_id ≡ get d.reply_keys job_id
      → result_with_receipt fetch net rounds c s job_id timeout
        ≡ result_with_receipt fetch net rounds d s job_id timeout
  unfolding result_with_receipt await_done
  result_with_receipt_alike rounds c d s job_id timeout same kept =
      let waits_same =
        await_until_alike net rounds c d s job_id (rt.add (net.monotonic s) timeout) same in
      elim (Option-cases (get d.reply_keys job_id)) [
        | inl e ↦ ground (arith, kept, e)
        | inr (pair, e) ↦ ground (arith, kept, e, waits_same)
      ]

module _ {F : Type 0} ⦃pl : Platform⦄ ⦃rt : Runtime F⦄ where
  -- A job file that json gives back says what was written.
  saved_job-write_job_file :
      (path job_id reply_pub reply_prv : String) (disk : Disk)
      → rt.loads_str (rt.dumps_indented (obj (job_doc job_id (reply_pub, reply_prv))) +++ "\n")
        ≡ some (obj (job_doc job_id (reply_pub, reply_prv)))
      → saved_job F path (write_job_file F path job_id (reply_pub, reply_prv) disk)
        ≡ some (job_id, reply_pub, reply_prv)
  unfolding saved_job write_job_file read_dict
  saved_job-write_job_file path job_id reply_pub reply_prv disk reads =
      let at = pl.abspath path in
      let text = rt.dumps_indented (obj (job_doc job_id (reply_pub, reply_prv))) +++ "\n" in
      let found : get (put disk at text) at ≡ some text =
        ground (arith, get-put disk at at text, (eq_iff at at).1 refl) in
      rw found (rw reads refl)

  -- What a command that names its job has filed.
  record Filed (path : String) (disk kept : Disk) (c : GridClient F) (job_id : String)
      : Type 0 where
    reply_pub : String
    reply_prv : String
    known : get c.reply_keys job_id ≡ some (reply_pub, reply_prv)
    written : kept ≡ write_job_file F path job_id (reply_pub, reply_prv) disk

  file_job-Filed :
      (path : String) (disk kept : Disk) (c : GridClient F) (job job_id : String)
      (found : Option (String × String))
      → get c.reply_keys job ≡ found
      → file_job F path disk job found ≡ (kept, returned job_id)
      → Filed path disk kept c job_id
  unfolding file_job
  file_job-Filed path disk kept c job job_id none known h = absurd (ground (arith, h))
  file_job-Filed path disk kept c job job_id (some (reply_pub, reply_prv)) known h = record {
    reply_pub = reply_pub;
    reply_prv = reply_prv;
    known = ground (arith, known, h);
    written = ground (arith, h);
  }

  file_submitted-Filed :
      (path : String) (disk kept : Disk) (c : GridClient F) (got : Attempt String) (job_id : String)
      → file_submitted path disk c got ≡ (kept, returned job_id)
      → Filed path disk kept c job_id
  unfolding reply_key
  file_submitted-Filed path disk kept c (raised e) job_id h = absurd (ground (arith, h))
  file_submitted-Filed path disk kept c (returned job) job_id h =
      file_job-Filed path disk kept c job job_id (reply_key c job) refl h

module _ {F S : Type 0} ⦃pl : Platform⦄ ⦃rt : Runtime F⦄ (fetch : ℕ → String → Option (Fields F))
    (net : Net F S) where
  cmd_result-saved :
      (e : GridClient F) (u : S) (disk : Disk) (path job_id : String) (pair : String × String)
      (rounds : ℕ) (timeout : F)
      → saved_job F path disk ≡ some (job_id, pair.0, pair.1)
      → cmd_result fetch net rounds e u disk path timeout
        ≡ result_with_receipt fetch net rounds (adopt_reply_key job_id pair e) u job_id timeout
  unfolding cmd_result
  cmd_result-saved e u disk path job_id pair rounds timeout h = ground (arith, h)

  cmd_result-Filed :
      (d e : GridClient F) (u : S) (disk kept : Disk) (path job_id : String) (rounds : ℕ)
      (timeout : F)
      → (filed : Filed path disk kept d job_id)
      → (e.coordinator_url ≡ d.coordinator_url) × (e.timeout ≡ d.timeout)
      → saved_job F path (write_job_file F path job_id (filed.reply_pub, filed.reply_prv) disk)
        ≡ some (job_id, filed.reply_pub, filed.reply_prv)
      → cmd_result fetch net rounds e u kept path timeout
        ≡ result_with_receipt fetch net rounds d u job_id timeout
  unfolding adopt_reply_key
  cmd_result-Filed d e u disk kept path job_id rounds timeout filed same saved =
      let pair : String × String = (filed.reply_pub, filed.reply_prv) in
      let keys_same : get (put e.reply_keys job_id pair) job_id ≡ get d.reply_keys job_id = ground (
        arith,
        filed.known,
        get-put e.reply_keys job_id job_id pair,
        (eq_iff job_id job_id).1 refl,
      ) in
      let started =
        cmd_result-saved e u (write_job_file F path job_id pair disk) path job_id pair rounds
          timeout saved in
      let waited =
        result_with_receipt_alike fetch net rounds (adopt_reply_key job_id pair e) d u job_id
          timeout same keys_same in
      rw filed.written (started ∙ waited)

  -- After a submit command that names its job, the result command that another process runs on the
  -- job file, whenever it does and with whatever client of the same
  -- coordinator and the same http timeout, gets what the
  -- client that submitted would get by waiting itself from then on, if json gives back the document
  -- that the job file holds.
  pub cmd_result-cmd_submit :
      (c d e : GridClient F) (s t u : S) (disk kept : Disk) (args : SubmitArgs F) (job_id : String)
      (rounds : ℕ) (timeout : F)
      → cmd_submit fetch net c s disk args ≡ (d, t, kept, returned job_id)
      → (e.coordinator_url ≡ d.coordinator_url) × (e.timeout ≡ d.timeout)
      → ((pair : String × String)
          → reply_key d job_id ≡ some pair
          → rt.loads_str (rt.dumps_indented (obj (job_doc job_id pair)) +++ "\n")
            ≡ some (obj (job_doc job_id pair)))
      → cmd_result fetch net rounds e u kept args.job_file timeout
        ≡ result_with_receipt fetch net rounds d u job_id timeout
  unfolding cmd_submit reply_key
  cmd_result-cmd_submit c d e s t u disk kept args job_id rounds timeout h same reads =
      let got =
        submit fetch net c s args.prompt args.to_node args.max_tokens args.temperature none in
      let filed = file_submitted-Filed args.job_file disk kept d got.2 job_id (ground (arith, h)) in
      let pair : String × String = (filed.reply_pub, filed.reply_prv) in
      cmd_result-Filed d e u disk kept args.job_file job_id rounds timeout filed same (
        saved_job-write_job_file args.job_file job_id filed.reply_pub filed.reply_prv disk
          (reads pair filed.known))
