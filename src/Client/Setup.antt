-- ===== src/Client/Setup.antt =====
-- What GridClient of pygrid/client.py holds, and how `__init__` reads the card and the member key.
pub mod Paired
use mathlib.Core.Option
use nycc_grid.Base.{
  nat_beq, if◌then◌else◌, length, String, Bool, true, false, not, Option, none, some, List, [], ◌∷◌,
}
use nycc_grid.Base.Dict.{Dict, keys}
use nycc_grid.Json.{Json, Fields, get_field, as_obj, nonempty, str, obj, end}
use nycc_grid.Text.{◌>>=◌, to_str, get_or}
use nycc_grid.Runtime.{Platform, Runtime, truthy}
use nycc_grid.Crypto.{key_bytes, b64e, b64d, canonical_json}

-- The fields of the client that its operations read or change.
pub record GridClient (F : Type 0) : Type 0 where
  pub coordinator_url : String
  pub timeout : F
  pub reply_keys : Dict String (String × String)
  pub card_doc : Option (Fields F)
  pub member_sign_b64 : Option String
  pub card_header : Option String

-- `os.environ.get(name)`, and `json.load` of the file at a path; none is the exception of either.
pub record Files (F : Type 0) : Type 0 where
  pub environ : String → Option String
  pub read_json : String → Option (Json F)

-- `s or None`
abbrev pub given : Option String → Option String
given none = none
given (some s) = if nonempty s then some s else none

-- `a or b`, of texts that may be None
abbrev pub or_given : Option String → Option String → Option String
or_given a b = elim (given a) [ some s ↦ some s | none ↦ given b ]

module _ ⦃pl : Platform⦄ where
  -- `_checked_sign_key`; none is the ValueError.
  unfoldable pub checked_sign_key : String → Option String
  checked_sign_key value = elim (b64d value) [
    | none ↦ none
    | some raw ↦ if nat_beq (length raw) key_bytes then some value else none
  ]

module _ {F : Type 0} ⦃pl : Platform⦄ ⦃rt : Runtime F⦄ where
  -- The test of `_load_card` on the document in the file.
  unfoldable pub checked_card : Json F → Option (Fields F)
  checked_card (obj doc) = elim (as_obj (get_field doc "card")) [
    | none ↦ none
    | some card ↦ if truthy (get_field doc "sig") then some doc else none
  ]
  checked_card _ = none

  unfoldable pub load_card : Files F → String → Option (Fields F)
  load_card files path = do doc ← files.read_json path; checked_card doc

  -- The text of a field, stripped; none where it has none.
  abbrev pub stripped : Json F → Option String
  stripped (str s) = given (some (pl.strip s))
  stripped _ = none

  -- The first of MEMBER_SIGN_FIELDS with a text.
  unfoldable pub sign_field : Fields F → List String → Option String
  sign_field keys [] = none
  sign_field keys (name ∷ names) =
      let later = sign_field keys names in
      elim (stripped (get_field keys name)) [ some s ↦ some s | none ↦ later ]

  -- The text that a keyfile has for the member key; none is an exception.
  unfoldable pub keyfile_key : Files F → String → Option String
  keyfile_key files path = do
    doc ← files.read_json path
    keys ← as_obj doc
    sign_field keys ("signkey" ∷ "sign_key" ∷ "member_signkey" ∷ [])

  -- `_load_member_sign_key`: none is an exception, `some none` is None.
  unfoldable pub load_member_sign_key : Files F → Option String → Option (Option String)
  load_member_sign_key files path = elim (given path) [
    | none ↦ elim (given (Option.map pl.strip (files.environ "NYCC_MEMBER_SIGNKEY"))) [
      | none ↦ some none
      | some value ↦ Option.map some (checked_sign_key value)
    ]
    | some file ↦ do value ← keyfile_key files file; Option.map some (checked_sign_key value)
  ]

  -- The card of the path, if there is a path.
  abbrev pub card_at : Files F → Option String → Option (Option (Fields F))
  card_at files none = some none
  card_at files (some path) = Option.map some (load_card files path)

  -- `self.card_header`
  abbrev pub header_of_card : Option (Fields F) → Option String
  header_of_card none = none
  header_of_card (some doc) =
      if truthy (obj doc) then some (b64e (canonical_json (obj doc))) else none

  -- A card needs a member key and a key needs a card.
  abbrev pub is_paired : Option (Fields F) → Option String → Bool
  is_paired none none = true
  is_paired none (some key) = not (nonempty key)
  is_paired (some doc) none = false
  is_paired (some doc) (some key) = nonempty key

  -- `__init__`, with the float of its timeout; none is an exception.
  unfoldable pub new_client :
      Files F → String → F → Option String → Option String → Option (GridClient F)
  new_client files url timeout card_path member_keys_path = do
    card_doc ← card_at files (or_given card_path (files.environ "NYCC_CARD"))
    member_sign_b64 ← load_member_sign_key files member_keys_path
    if is_paired card_doc member_sign_b64
        then some (record {
          coordinator_url = pl.rstrip_slash url;
          timeout = timeout;
          reply_keys = [];
          card_doc = card_doc;
          member_sign_b64 = member_sign_b64;
          card_header = header_of_card card_doc;
        })
        else none

  -- `member`: the name on the card; none is None.
  unfoldable pub member : GridClient F → Option (Option String)
  member c = elim c.card_doc [
    | none ↦ some none
    | some doc ↦ elim (get_or doc "card" (obj end)) [
      | obj card ↦ some (
          if truthy (get_field card "member")
          then some (to_str (get_field card "member"))
          else none)
      | _ ↦ none
    ]
  ]
