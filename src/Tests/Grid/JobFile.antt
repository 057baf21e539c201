-- ===== src/Tests/Grid/JobFile.antt =====
-- A job file from the command submit to the command result.
use nycc_grid.Crypto.{◌+++◌}
use nycc_grid.Net.{Net, answered}
use nycc_grid.Tests.Toy.{small_receipt, toy_runtime, toy_platform}
use nycc_grid.Tests.Grid.Waiting.{client_side, plain_client, one_node, naming}
use nycc_grid.Base.{
  if◌then◌else◌, ◌==◌, ℕ, suc, String, ◌≡◌, refl, false, none, some, [], ◌∷◌, arith, string_eq,
  pair_eq, nat_eq,
}
use nycc_grid.Base.Int.{pos}
use nycc_grid.Club.Files.{Disk, read_dict}
use nycc_grid.Client.Setup.{GridClient}
use nycc_grid.Client.Calls.{returned}
use nycc_grid.Client.Submit.{adopt_reply_key, reply_key}
use nycc_grid.Client.Answer.{text_of, unsealed, receipt_part, read_result, result_with_receipt}
use nycc_grid.Crypto.Box.{halves_match, unseal}
use nycc_grid.Client.JobFile.{
  SubmitArgs, job_doc, write_job_file, saved_job, file_job, cmd_submit, cmd_result,
}
use nycc_grid.Client.JobFile.Later.{cmd_result-cmd_submit}
use nycc_grid.Json.{obj}

job_files : Unit {0}
unfolding client_side read_result unsealed unseal halves_match text_of receipt_part read_dict
    adopt_reply_key result_with_receipt write_job_file saved_job file_job cmd_submit cmd_result
job_files = tt

-- A coordinator that names the job, and has its answer when it is asked.
abbrev answering : Net ℕ ℕ
answering = record naming {
  answer = λ s call. (suc s, answered (200, if call.method == "POST" then 3 ∷ [] else 12 ∷ []));
}

abbrev asked : SubmitArgs ℕ
asked = record {
  prompt = "hi";
  to_node = none;
  max_tokens = pos 64;
  temperature = 0;
  job_file = "job.json";
}

abbrev submitter : GridClient ℕ
submitter = record plain_client { reply_keys = ("j1", ("sig", "sig")) ∷ [] }

abbrev filed : Disk
filed = ("job.json", "job\n") ∷ []

files_job :
    cmd_submit one_node answering plain_client 0 [] asked ≡ (submitter, 1, filed, returned "j1")
unfolding job_files
files_job = refl

reads_job :
    (pair : String × String)
    → reply_key submitter "j1" ≡ some pair
    → toy_runtime.loads_str (toy_runtime.dumps_indented (obj (job_doc "j1" pair)) +++ "\n")
      ≡ some (obj (job_doc "j1" pair))
unfolding job_files
reads_job pair h = ground (arith, h)

answers :
    cmd_result one_node answering 1 plain_client 1 filed "job.json" 30
    ≡ (2, some (returned ("answer", some small_receipt, false)))
unfolding job_files
answers = refl

cmd_result-cmd_submit_example :
    cmd_result one_node answering 3 plain_client 1 filed "job.json" 30
    ≡ result_with_receipt one_node answering 3 submitter 1 "j1" 30
cmd_result-cmd_submit_example =
    cmd_result-cmd_submit one_node answering plain_client submitter plain_client 0 1 1 [] filed
      asked "j1" 3 30 files_job (refl, refl) reads_job
