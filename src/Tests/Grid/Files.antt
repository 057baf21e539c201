-- ===== src/Tests/Grid/Files.antt =====
-- The theorems on keyfiles, card files, fingerprints and card texts.
use Prim.Native.Char.{Char}
use nycc_grid.Tests.Toy.{card_document, club_fields, node_keys, toy_platform, toy_runtime}
use nycc_grid.Tests.Grid.{program}
use nycc_grid.Tests.Grid.Carded.{sign_pair}
use nycc_grid.Base.{ℕ, ◌≡◌, refl, true, false, none, some, List, [], ◌∷◌, arith}
use nycc_grid.Base.Int.{pos}
use nycc_grid.Crypto.Box.{keygen, sign_keygen}
use nycc_grid.Club.{issued_ok, issued_card}
use nycc_grid.Club.Art.{esc, avoids, esc-avoids}
use nycc_grid.Club.Fingerprint.{chunks, chars, key_digest}
use nycc_grid.Club.Fingerprint.Shape.{Shaped, fingerprint-Shaped}
use nycc_grid.Club.Files.{
  Disk, write_json, read_dict, init_club_keys, load_club_keys, make_member_keys, load_card,
  save_card,
}
use nycc_grid.Club.Commands.{
  Moment, IssueArgs, cmd_init, issued_doc, write_card, cmd_issue, show_verdict, cmd_show,
}
use nycc_grid.Club.Commands.Keeps.{
  FileKept, run_commands, run_commands-FileKept, init_keys, issue_card,
}
use nycc_grid.Club.Commands.Shown.{cmd_show-cmd_issue}
use nycc_grid.Node.Keys.{KeyDraw, key_names, KeyEnv, make_keys, has_all, keys_at, load_keys}
use nycc_grid.Node.Keys.Again.{ReadsBack, load_keys-again}
use nycc_grid.Club.{issued_ok, issued_card}

files : Unit {0}
unfolding program keygen sign_keygen write_json read_dict init_club_keys load_club_keys
    make_member_keys load_card save_card cmd_init issued_doc write_card cmd_issue show_verdict
    cmd_show key_digest issued_card chunks make_keys keys_at load_keys
files = tt

abbrev moment : Moment
moment = record { now = "2026-08-19"; seconds = pos 5; draw = [] }

abbrev for_ada : IssueArgs
for_ada = record {
  member = "ada";
  member_key = some "key";
  member_keygen = false;
  out = "card.json";
  keys = "club.json";
}

abbrev disk : Disk
disk = ("club.json", "club") ∷ []

issues : (cmd_issue ℕ moment for_ada disk).1 ≡ some 0
unfolding files
issues = refl

loads_club : load_club_keys "club.json" disk ≡ some club_fields
unfolding files
loads_club = refl

issues_card : issued_doc ℕ moment for_ada club_fields ≡ some card_document
unfolding files
issues_card = refl

dated : issued_ok "2026-08-19" ≡ true
unfolding files
dated = refl

cmd_show-cmd_issue_example :
    cmd_show ℕ "card.json" "club.json" (cmd_issue ℕ moment for_ada disk).0 ≡ some (some true)
cmd_show-cmd_issue_example =
    cmd_show-cmd_issue ℕ moment for_ada disk club_fields card_document "key" "key" issues loads_club
      issues_card refl refl sign_pair dated (omega arith) refl refl refl (λ s raw e. e)

run_commands-FileKept_example :
    FileKept "club.json" disk
      (run_commands ℕ (init_keys moment "club.json" ∷ issue_card moment for_ada ∷ []) disk)
run_commands-FileKept_example =
    run_commands-FileKept ℕ (init_keys moment "club.json" ∷ issue_card moment for_ada ∷ [])
      "club.json" disk (refl, tt)

abbrev no_env : KeyEnv
no_env = record { node_id = none; pubkey = none; privkey = none; verify_key = none; signkey = none }

abbrev first_draw : KeyDraw
first_draw = record { box_draw = []; sign_draw = []; hex = "0" }

abbrev second_draw : KeyDraw
second_draw = record { box_draw = 1 ∷ []; sign_draw = 1 ∷ []; hex = "1" }

reads_back : ReadsBack ℕ first_draw (some "n")
unfolding files
reads_back = refl

starts : (load_keys no_env (some "node.json") first_draw (some "n") []).1 ≡ some node_keys
unfolding files
starts = refl

load_keys-again_example :
    (load_keys no_env
        (some "node.json")
        second_draw
        (some "m")
        (load_keys {F = ℕ} no_env (some "node.json") first_draw (some "n") []).0
      ≡ ((load_keys {F = ℕ} no_env (some "node.json") first_draw (some "n") []).0, some node_keys))
    × (has_all key_names node_keys ≡ true)
load_keys-again_example =
    load_keys-again ℕ no_env (some "node.json") first_draw second_draw (some "n") (some "m") []
      node_keys reads_back starts

abbrev digest : List Char
digest = chars "0123456789ABCDEF0123456789ABCDEF0123456789ABCDEF0123456789ABCDEF"

digested : key_digest "key" ≡ some digest
unfolding files
digested = refl

fingerprint-Shaped_example : Shaped "key" digest
fingerprint-Shaped_example = fingerprint-Shaped "key" digest digested refl

esc-avoids_example :
    (avoids b'<' (esc "<a b=\"c\">") ≡ true)
    × (avoids b'>' (esc "<a b=\"c\">") ≡ true)
    × (avoids 34 (esc "<a b=\"c\">") ≡ true)
esc-avoids_example = esc-avoids "<a b=\"c\">"
