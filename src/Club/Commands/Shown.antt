-- ===== src/Club/Commands/Shown.antt =====
-- A card of `_cmd_issue` of pygrid/club.py, as `_cmd_show` reads it.
use nycc_grid.Base.{
  if◌then◌else◌, Bool-cases, Option-cases, ◌==◌, ◌≤◌, String, ◌≡◌, ap, ◌∙◌, inl, inr, true, false,
  not, ◌&&◌, none, some, [], ◌∷◌, arith, eq_iff, string_eq, pair_eq, nat_eq,
}
use nycc_grid.Base.Dict.{get, get-put, keys}
use nycc_grid.Json.{Fields, get_field, has_field, fields, as_str, as_obj, nonempty, str, obj}
use nycc_grid.Runtime.{Bytes, Platform, Runtime}
use nycc_grid.Crypto.{◌+++◌, b64e, b64d, sign}
use nycc_grid.Club.Files.{
  Disk, exists, write_json, read_dict, load_club_keys, make_member_keys, load_card, save_card,
}
use nycc_grid.Club.Commands.{
  Moment, IssueArgs, is_given, side_file, member_verify, issued_doc, write_card, cmd_issue,
  has_fingerprint, show_verdict, cmd_show,
}
use nycc_grid.Crypto.Pairs.{IsSignPair}
use nycc_grid.Club.{
  max_safe_int, is_verify_key_str, issued_ok, issued_card, card_bytes, check_card, verify_card,
  issue,
}
use nycc_grid.Base.Int.{ℤ, abs}
use nycc_grid.Club.Issue.{check_card-issue}
use nycc_grid.Club.Commands.Keeps.{FileKept, cmd_issue-FileKept}

module _ (F : Type 0) ⦃pl : Platform⦄ ⦃rt : Runtime F⦄ where
  -- A command that ends with the code 0 has written the card that it issued.
  cmd_issue-written :
      (m : Moment) (args : IssueArgs) (disk : Disk) (club doc : Fields F)
      → (cmd_issue F m args disk).1 ≡ some 0
      → load_club_keys args.keys disk ≡ some club
      → issued_doc F m args club ≡ some doc
      → (cmd_issue F m args disk).0 ≡ write_card F m args doc disk
  unfolding cmd_issue
  cmd_issue-written m args disk club doc h l d =
      elim (Bool-cases (not (is_given args.member_key) && not args.member_keygen)) [
        | inl e ↦ absurd (ground (arith, e, h))
        | inr e ↦ elim (Bool-cases (args.member_keygen && exists disk (side_file F args))) [
          | inl k ↦ absurd (ground (arith, e, l, k, h))
          | inr k ↦ ground (arith, e, l, k, d)
        ]
      ]

  -- What lies at a path after a file was written elsewhere, or there.
  get-write_json :
      (target path : String) (payload : Fields F) (disk : Disk)
      → get (write_json target payload disk) path ≡ (
          if pl.abspath target == path
          then some (rt.dumps_file (obj payload) +++ "\n")
          else get disk path)
  unfolding write_json
  get-write_json target path payload disk =
      get-put disk (pl.abspath target) path (rt.dumps_file (obj payload) +++ "\n")

  get-write_card :
      (m : Moment) (args : IssueArgs) (doc : Fields F) (disk : Disk)
      → (pl.abspath (side_file F args) == pl.abspath args.out) ≡ false
      → get (write_card F m args doc disk) (pl.abspath args.out)
        ≡ some (rt.dumps_file (obj doc) +++ "\n")
  unfolding write_card save_card
  get-write_card m args doc disk h =
      let out = pl.abspath args.out in
      let saved = write_json args.out doc disk in
      let keys = make_member_keys {F = F} args.member m.draw m.now in
      ground (
        arith,
        h,
        eq_iff out out,
        get-write_json args.out out doc disk,
        get-write_json (side_file F args) out keys saved,
      )

  -- What an issued document is made of.
  issue-parts :
      (sign_b64 member key now : String) (seconds : ℤ) (doc : Fields F)
      → issue sign_b64 member key none none now seconds ≡ some doc
      → (sig : Bytes) × (sign sign_b64
            (card_bytes {F = F} (issued_card member key none none now seconds))
          ≡ some sig)
        × (doc
            ≡ fields (
                ("card", obj (issued_card member key none none now seconds))
                ∷ ("sig", str (b64e sig))
                ∷ []))
        × (is_verify_key_str key ≡ true)
  unfolding issue
  issue-parts sign_b64 member key now seconds doc h =
      let card : Fields F = issued_card member key none none now seconds in
      elim (Option-cases (sign sign_b64 (card_bytes card))) [
        | inl e ↦ absurd (ground (arith, e, h))
        | inr (sig, e) ↦ (sig, e, ground (arith, e, h), ground (arith, e, h))
      ]

  issued_doc-parts :
      (m : Moment) (args : IssueArgs) (club doc : Fields F) (sign_b64 : String)
      → issued_doc F m args club ≡ some doc
      → as_str (get_field club "signkey") ≡ some sign_b64
      → (key : String) × (issue sign_b64 args.member key none none m.now m.seconds ≡ some doc)
  unfolding issued_doc
  issued_doc-parts m args club doc sign_b64 h s = elim (Option-cases (member_verify F m args)) [
    | inl e ↦ absurd (ground (arith, e, h, s))
    | inr (key, e) ↦ (key, ground (arith, e, h, s))
  ]

  -- What `show` reads back, and its verdict.
  cmd_show-read :
      (path keys verify_b64 : String) (club doc card : Fields F) (disk : Disk)
      → load_card path disk ≡ some doc
      → as_obj (get_field doc "card") ≡ some card
      → has_fingerprint F card ≡ true
      → exists disk keys ≡ true
      → load_club_keys keys disk ≡ some club
      → as_str (get_field club "verify_key") ≡ some verify_b64
      → check_card verify_b64 (obj doc) ≡ none
      → cmd_show F path keys disk ≡ some (some true)
  unfolding cmd_show show_verdict verify_card
  cmd_show-read path keys verify_b64 club doc card disk l c f e k v good =
      ground (arith, l, c, f, e, k, v, good)

  load_club_keys-kept :
      (path : String) (before after_all : Disk) (club : Fields F)
      → load_club_keys path before ≡ some club
      → FileKept (pl.abspath path) before after_all
      → (load_club_keys path after_all ≡ some club) × (exists after_all path ≡ true)
  unfolding load_club_keys read_dict
  load_club_keys-kept path before after_all club h kept =
      elim (Option-cases (get before (pl.abspath path))) [
        | inl e ↦ absurd (ground (arith, e, h))
        | inr (text, e) ↦ (ground (arith, e, kept text e, h), ground (arith, kept text e))
      ]

  load_card-written :
      (path : String) (doc : Fields F) (disk : Disk)
      → get disk (pl.abspath path) ≡ some (rt.dumps_file (obj doc) +++ "\n")
      → rt.loads_str (rt.dumps_file (obj doc) +++ "\n") ≡ some (obj doc)
      → has_field doc "card" ≡ true
      → has_field doc "sig" ≡ true
      → load_card path disk ≡ some doc
  unfolding load_card read_dict
  load_card-written path doc disk g law c s = ground (arith, g, law, c, s)

  issued_fingerprint :
      (member key now : String) (seconds : ℤ)
      → ((text : String) (raw : Bytes)
          → b64d text ≡ some raw
          → pl.b64decode_lenient text ≡ some raw)
      → is_verify_key_str key ≡ true
      → has_fingerprint F (issued_card member key none none now seconds) ≡ true
  unfolding issued_card
  issued_fingerprint member key now seconds lenient k = elim (Option-cases (b64d key)) [
    | inl e ↦ absurd (ground (arith, e, k))
    | inr (raw, e) ↦ ground (arith, lenient key raw e)
  ]

  issued_date :
      (now : String)
      → issued_ok now ≡ true
      → issued_ok (elim none [ none ↦ now | some s ↦ if nonempty s then s else now ]) ≡ true
  issued_date now h = h

  -- The card that a successful issue command writes is shown as signed by the club: where the
  -- keyfile of the club holds a pair that signs and verifies, the date and the serial are in
  -- range, the card file is neither that keyfile nor the file of the member's keys, json gives
  -- back what was written, and base64 what was encoded.
  pub cmd_show-cmd_issue :
      (m : Moment) (args : IssueArgs) (disk : Disk) (club doc : Fields F)
      (sign_b64 verify_b64 : String)
      → (cmd_issue F m args disk).1 ≡ some 0
      → load_club_keys args.keys disk ≡ some club
      → issued_doc F m args club ≡ some doc
      → as_str (get_field club "signkey") ≡ some sign_b64
      → as_str (get_field club "verify_key") ≡ some verify_b64
      → IsSignPair verify_b64 sign_b64
      → issued_ok m.now ≡ true
      → abs m.seconds ≤ max_safe_int
      → (pl.abspath args.out == pl.abspath args.keys) ≡ false
      → (pl.abspath (side_file F args) == pl.abspath args.out) ≡ false
      → rt.loads_str (rt.dumps_file (obj doc) +++ "\n") ≡ some (obj doc)
      → ((text : String) (raw : Bytes)
          → b64d text ≡ some raw
          → pl.b64decode_lenient text ≡ some raw)
      → cmd_show F args.out args.keys (cmd_issue F m args disk).0 ≡ some (some true)
  cmd_show-cmd_issue m args disk club doc sign_b64 verify_b64 exit loaded made sk vk pair dated
        exact apart_keys apart_side json lenient =
      let written = cmd_issue-written m args disk club doc exit loaded made in
      let (key, issued) = issued_doc-parts m args club doc sign_b64 made sk in
      let card : Fields F = issued_card args.member key none none m.now m.seconds in
      let (sig, signed, whole, is_key) =
        issue-parts sign_b64 args.member key m.now m.seconds doc issued in
      let good =
        check_card-issue sign_b64 verify_b64 args.member key none none m.now m.seconds doc sig
          issued dated exact signed (pair.accepts (card_bytes card) sig signed)
          (pair.survives (card_bytes card) sig signed)
          (pair.some_text (card_bytes card) sig signed) in
      let after_all = (cmd_issue F m args disk).0 in
      let (keys_kept, keys_there) =
        load_club_keys-kept args.keys disk after_all club loaded
          (cmd_issue-FileKept F m args (pl.abspath args.keys) disk apart_keys) in
      let read =
        load_card-written args.out doc after_all
          (ap (λ d. get d (pl.abspath args.out)) written
            ∙ get-write_card m args doc disk apart_side)
          json (ap (λ d. has_field d "card") whole) (ap (λ d. has_field d "sig") whole) in
      cmd_show-read args.out args.keys verify_b64 club doc card after_all read
        (ap (λ d. as_obj (get_field d "card")) whole)
        (issued_fingerprint args.member key m.now m.seconds lenient is_key) keys_there keys_kept vk
        good
