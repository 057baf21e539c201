-- ===== src/Club/Commands/Keeps.antt =====
-- What the commands of pygrid/club.py leave on the disk.
use nycc_grid.Base.{
  Bool-cases, Option-cases, ◌==◌, String, ◌≡◌, inl, inr, false, not, ◌&&◌, some, List, [], ◌∷◌,
  arith, eq_iff, string_eq, pair_eq, nat_eq,
}
use nycc_grid.Base.Dict.{get, get-put, keys}
use nycc_grid.Json.{Fields, obj}
use nycc_grid.Crypto.{◌+++◌}
use nycc_grid.Runtime.{Platform, Runtime}
use nycc_grid.Club.Files.{
  Disk, exists, write_json, club_keys, init_club_keys, load_club_keys, make_member_keys, save_card,
}
use nycc_grid.Club.Commands.{
  Moment, IssueArgs, is_given, cmd_init, side_file, issued_doc, write_card, cmd_issue,
}

-- The commands that write json files.
pub data Command : Type 0 where
  init_keys : Moment → String → Command
  issue_card : Moment → IssueArgs → Command

-- The file at a path is as it was, if there was one.
abbrev pub FileKept : String → Disk → Disk → Type 0
FileKept path before after_all =
    (text : String) → get before path ≡ some text → get after_all path ≡ some text

module _ (F : Type 0) ⦃pl : Platform⦄ ⦃rt : Runtime F⦄ where
  abbrev pub run_command : Command → Disk → Disk
  run_command (init_keys m keys) disk = (cmd_init F m keys disk).0
  run_command (issue_card m args) disk = (cmd_issue F m args disk).0

  -- The disk after some commands, whether or not they succeed.
  abbrev pub run_commands : List Command → Disk → Disk
  run_commands [] disk = disk
  run_commands (command ∷ commands) disk = run_commands commands (run_command command disk)

  -- No command names the path as its `--out`.
  abbrev pub IsSpared : String → List Command → Type 0
  IsSpared path [] = Unit
  IsSpared path (init_keys m keys ∷ commands) = IsSpared path commands
  IsSpared path (issue_card m args ∷ commands) =
      ((pl.abspath args.out == path) ≡ false) × IsSpared path commands

  write_json-FileKept :
      (target path : String) (payload : Fields F) (disk : Disk)
      → (pl.abspath target == path) ≡ false
      → FileKept path disk (write_json target payload disk)
  unfolding write_json
  write_json-FileKept target path payload disk h text g =
      ground
        (arith, h, g, get-put disk (pl.abspath target) path (rt.dumps_file (obj payload) +++ "\n"))

  -- A path where there is no file is not that of a file.
  fresh_differs :
      (target path text : String) (disk : Disk)
      → exists disk target ≡ false
      → get disk path ≡ some text
      → (pl.abspath target == path) ≡ false
  fresh_differs target path text disk h g = ground (arith, h, g, eq_iff (pl.abspath target) path)

  init_club_keys-FileKept :
      (m : Moment) (keys path : String) (disk : Disk)
      → FileKept path disk (cmd_init F m keys disk).0
  unfolding cmd_init init_club_keys
  init_club_keys-FileKept m keys path disk text g = elim (Bool-cases (exists disk keys)) [
    | inl h ↦ ground (arith, h, g)
    | inr h ↦ ground (
      arith,
      h,
      g,
      write_json-FileKept keys path (club_keys m.draw m.now) disk
          (fresh_differs keys path text disk h g) text g,
    )
  ]

  write_card-FileKept :
      (m : Moment) (args : IssueArgs) (doc : Fields F) (path : String) (disk : Disk)
      → (pl.abspath args.out == path) ≡ false
      → (args.member_keygen && exists disk (side_file F args)) ≡ false
      → FileKept path disk (write_card F m args doc disk)
  unfolding write_card save_card
  write_card-FileKept m args doc path disk h fresh text g =
      let saved = write_json args.out doc disk in
      let kept = write_json-FileKept args.out path doc disk h text g in
      let keys = make_member_keys {F = F} args.member m.draw m.now in
      elim (Bool-cases args.member_keygen) [
        | inl k ↦ ground (
          arith,
          k,
          write_json-FileKept (side_file F args) path keys saved
              (fresh_differs (side_file F args) path text disk (ground (arith, k, fresh)) g) text
              kept,
        )
        | inr k ↦ ground (arith, k, kept)
      ]

  pub cmd_issue-FileKept :
      (m : Moment) (args : IssueArgs) (path : String) (disk : Disk)
      → (pl.abspath args.out == path) ≡ false
      → FileKept path disk (cmd_issue F m args disk).0
  unfolding cmd_issue
  cmd_issue-FileKept m args path disk h text g =
      elim (Bool-cases (not (is_given args.member_key) && not args.member_keygen)) [
        | inl e ↦ ground (arith, e, g)
        | inr e ↦ elim (Option-cases (load_club_keys {F = F} args.keys disk)) [
          | inl l ↦ ground (arith, e, l, g)
          | inr (club, l) ↦
              elim (Bool-cases (args.member_keygen && exists disk (side_file F args))) [
                | inl k ↦ ground (arith, e, l, k, g)
                | inr k ↦ elim (Option-cases (issued_doc F m args club)) [
                  | inl d ↦ ground (arith, e, l, k, d, g)
                  | inr (doc, d) ↦
                      ground
                        (arith, e, l, k, d, write_card-FileKept m args doc path disk h k text g)
                ]
              ]
        ]
      ]

  -- No run of init and issue commands, whether they succeed, refuse or raise, changes a file that
  -- is there, unless a command names it as its --out: neither the keys of the club nor those of
  -- a member are ever written over.
  pub run_commands-FileKept :
      (commands : List Command) (path : String) (disk : Disk)
      → IsSpared path commands
      → FileKept path disk (run_commands commands disk)
  run_commands-FileKept [] path disk spared text g = g
  run_commands-FileKept (init_keys m keys ∷ commands) path disk spared text g =
      run_commands-FileKept commands path (run_command (init_keys m keys) disk) spared text
        (init_club_keys-FileKept m keys path disk text g)
  run_commands-FileKept (issue_card m args ∷ commands) path disk (h, spared) text g =
      run_commands-FileKept commands path (run_command (issue_card m args) disk) spared text
        (cmd_issue-FileKept m args path disk h text g)
