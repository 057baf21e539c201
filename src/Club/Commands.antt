-- ===== src/Club/Commands.antt =====
-- The commands of pygrid/club.py: `_cmd_init`, `_cmd_issue` and `_cmd_show`. What they print is left
-- out, but for the verdict of `show`.
pub mod Keeps
pub mod Shown
use nycc_grid.Base.{if◌then◌else◌, is_some, ℕ, String, Bool, false, not, ◌&&◌, Option, none, some}
use nycc_grid.Base.Int.{ℤ}
use nycc_grid.Json.{Fields, get_field, as_str, as_obj, nonempty, str, obj}
use nycc_grid.Text.{◌>>=◌, to_str, get_or}
use nycc_grid.Runtime.{Bytes, Platform, Runtime}
use nycc_grid.Crypto.Box.{sign_keygen}
use nycc_grid.Club.{verify_card, issue}
use nycc_grid.Club.Files.{
  Disk, exists, write_json, init_club_keys, load_club_keys, make_member_keys, load_card, save_card,
}

-- What a command reads of its surroundings: `_iso_now()`, `int(time.time())` and the draw of the
-- random source.
pub record Moment : Type 0 where
  pub now : String
  pub seconds : ℤ
  pub draw : Bytes

-- The arguments of `issue`.
pub record IssueArgs : Type 0 where
  pub member : String
  pub member_key : Option String
  pub member_keygen : Bool
  pub out : String
  pub keys : String

-- The disk after a command, and its exit code; none is an exception.
abbrev pub Exit : Type 0
Exit = Disk × Option ℕ

-- `bool(args.member_key)`
abbrev pub is_given : Option String → Bool
is_given none = false
is_given (some key) = nonempty key

module _ {F : Type 0} ⦃pl : Platform⦄ ⦃rt : Runtime F⦄ where
  abbrev pub exit_of_init : Disk × Option (Fields F) → Exit
  exit_of_init (disk, none) = (disk, some 1)
  exit_of_init (disk, some keys) = (disk, some 0)

module _ (F : Type 0) ⦃pl : Platform⦄ ⦃rt : Runtime F⦄ where
  unfoldable pub cmd_init : Moment → String → Disk → Exit
  cmd_init m keys disk = exit_of_init {F = F} (init_club_keys keys m.draw m.now disk)

  -- The keyfile beside the card.
  abbrev pub side_file : IssueArgs → String
  side_file args = pl.beside args.out "member.keys.json"

  -- `member_verify`
  abbrev pub member_verify : Moment → IssueArgs → Option String
  member_verify m args = if args.member_keygen then some (sign_keygen m.draw).0 else args.member_key

  -- The card that the command issues; none is an exception.
  unfoldable pub issued_doc : Moment → IssueArgs → Fields F → Option (Fields F)
  issued_doc m args club = do
    signkey ← as_str (get_field club "signkey")
    verify_b64 ← member_verify m args
    issue signkey args.member verify_b64 none none m.now m.seconds

  -- The files that the command writes: the card, then the keys of the member, if it made them.
  unfoldable pub write_card : Moment → IssueArgs → Fields F → Disk → Disk
  write_card m args doc disk =
      let saved = save_card args.out doc disk in
      if args.member_keygen
      then write_json (side_file args) (make_member_keys {F = F} args.member m.draw m.now) saved
      else saved

  unfoldable pub cmd_issue : Moment → IssueArgs → Disk → Exit
  cmd_issue m args disk =
      if not (is_given args.member_key) && not args.member_keygen
      then (disk, some 2)
      else elim (load_club_keys args.keys disk) [
        | none ↦ (disk, none)
        | some club ↦
            if args.member_keygen && exists disk (side_file args)
            then (disk, some 1)
            else elim (issued_doc m args club) [
              | none ↦ (disk, none)
              | some doc ↦ (write_card m args doc disk, some 0)
            ]
      ]

  -- `fingerprint(str(card.get("member_verify_key", "")))` does not raise.
  abbrev pub has_fingerprint : Fields F → Bool
  has_fingerprint card =
      is_some (pl.b64decode_lenient (to_str (get_or card "member_verify_key" (str ""))))

  -- The signature line of `show`: `some true` is ok, `some false` that it does not verify.
  unfoldable pub show_verdict : String → Fields F → Disk → Option (Option Bool)
  show_verdict keys doc disk =
      if not (exists disk keys) then some none else elim (load_club_keys {F = F} keys disk) [
        | none ↦ none
        | some club ↦ elim (as_str (get_field club "verify_key")) [
          | none ↦ some (some false)
          | some verify_b64 ↦ some (some (verify_card verify_b64 (obj doc)))
        ]
      ]

  -- `_cmd_show`, with its verdict; none is an exception.
  unfoldable pub cmd_show : String → String → Disk → Option (Option Bool)
  cmd_show path keys disk = do
    doc ← load_card {F = F} path disk
    card ← as_obj (get_field doc "card")
    if has_fingerprint card then show_verdict keys doc disk else none
