-- ===== src/Club/Files.antt =====
-- The keyfiles and card files of pygrid/club.py, on a disk that holds texts by their paths. The
-- directories can be written.
use nycc_grid.Base.{
  if◌then◌else◌, String, Bool, not, ◌||◌, Option, none, some, [], ◌∷◌, string_eq, pair_eq, nat_eq,
}
use nycc_grid.Base.Dict.{Dict, get, put, has, keys}
use nycc_grid.Json.{Fields, get_field, has_field, fields, as_obj, str, obj}
use nycc_grid.Text.{◌>>=◌}
use nycc_grid.Runtime.{Bytes, Platform, Runtime, truthy}
use nycc_grid.Crypto.{◌+++◌}
use nycc_grid.Crypto.Box.{sign_keygen}

-- The texts of the files, by absolute path.
abbrev pub Disk : Type 0
Disk = Dict String String

module _ ⦃pl : Platform⦄ where
  -- `os.path.exists(path)`
  abbrev pub exists : Disk → String → Bool
  exists disk path = has disk (pl.abspath path)

module _ {F : Type 0} ⦃pl : Platform⦄ ⦃rt : Runtime F⦄ where
  -- `_write_json`
  unfoldable pub write_json : String → Fields F → Disk → Disk
  write_json path payload disk = put disk (pl.abspath path) (rt.dumps_file (obj payload) +++ "\n")

  -- `json.load` of the file at a path, where it holds a dict; none is an exception, or no dict.
  unfoldable pub read_dict : String → Disk → Option (Fields F)
  read_dict path disk = do text ← get disk (pl.abspath path); doc ← rt.loads_str text; as_obj doc

  abbrev pub club_keys : Bytes → String → Fields F
  club_keys draw now =
      let (verify_b64, sign_b64) = sign_keygen draw in
      fields
        (("created", str now) ∷ ("signkey", str sign_b64) ∷ ("verify_key", str verify_b64) ∷ [])

  -- `init_club_keys`; none is the FileExistsError. `now` is what `_iso_now` returns.
  unfoldable pub init_club_keys : String → Bytes → String → Disk → Disk × Option (Fields F)
  init_club_keys path draw now disk =
      if exists disk path
      then (disk, none)
      else (write_json path (club_keys draw now) disk, some (club_keys draw now))

  unfoldable pub load_club_keys : String → Disk → Option (Fields F)
  load_club_keys path disk = do
    keys ← read_dict path disk
    if not (truthy (get_field keys "signkey")) || not (truthy (get_field keys "verify_key"))
        then none
        else some keys

  unfoldable pub make_member_keys : String → Bytes → String → Fields F
  make_member_keys member draw now =
      let (verify_b64, sign_b64) = sign_keygen draw in
      fields (
        ("created", str now)
        ∷ ("member", str member)
        ∷ ("signkey", str sign_b64)
        ∷ ("verify_key", str verify_b64)
        ∷ [])

  unfoldable pub load_member_keys : String → Disk → Option (Fields F)
  load_member_keys path disk = do
    keys ← read_dict path disk
    if not (truthy (get_field keys "signkey")) then none else some keys

  -- `load_card`
  unfoldable pub load_card : String → Disk → Option (Fields F)
  load_card path disk = do
    doc ← read_dict path disk
    if not (has_field doc "card") || not (has_field doc "sig") then none else some doc

  -- `save_card`
  unfoldable pub save_card : String → Fields F → Disk → Disk
  save_card path doc disk = write_json path doc disk
