-- ===== src/Node/Keys.antt =====
-- The keys of a node: `make_keys` and `load_keys` of pygrid/node.py, and the guard of `main`.
pub mod Again
use nycc_grid.Base.{
  if◌then◌else◌, String, Bool, true, not, ◌&&◌, Option, none, some, List, [], ◌∷◌, string_eq,
  pair_eq, nat_eq,
}
use nycc_grid.Base.Dict.{put, keys}
use nycc_grid.Json.{Json, Fields, get_field, fields, nonempty, null, str, obj}
use nycc_grid.Text.{◌>>=◌}
use nycc_grid.Runtime.{Bytes, Platform, Runtime, truthy}
use nycc_grid.Crypto.{◌+++◌}
use nycc_grid.Crypto.Box.{keygen, sign_keygen}
use nycc_grid.Club.Files.{Disk, exists, read_dict}

-- What `make_keys` draws: the two keys and `uuid.uuid4().hex[:12]`.
pub record KeyDraw : Type 0 where
  pub box_draw : Bytes
  pub sign_draw : Bytes
  pub hex : String

abbrev pub key_names : List String
key_names = "node_id" ∷ "pubkey" ∷ "privkey" ∷ "verify_key" ∷ "signkey" ∷ []

-- `os.environ.get` of the five variables.
pub record KeyEnv : Type 0 where
  pub node_id : Option String
  pub pubkey : Option String
  pub privkey : Option String
  pub verify_key : Option String
  pub signkey : Option String

module _ {F : Type 0} ⦃pl : Platform⦄ ⦃rt : Runtime F⦄ where
  unfoldable pub make_keys : KeyDraw → Option String → Fields F
  make_keys draw node_id =
      let fresh = "node-" +++ draw.hex in
      let (pub_b64, prv_b64) = keygen draw.box_draw in
      let (verify_b64, sign_b64) = sign_keygen draw.sign_draw in
      fields (
        (
          "node_id",
          str (elim node_id [ none ↦ fresh | some id ↦ if nonempty id then id else fresh ]),
        )
        ∷ ("pubkey", str pub_b64)
        ∷ ("privkey", str prv_b64)
        ∷ ("verify_key", str verify_b64)
        ∷ ("signkey", str sign_b64)
        ∷ [])

  abbrev env_value : Option String → Json F
  env_value none = null
  env_value (some s) = str s

  abbrev pub env_keys : KeyEnv → Fields F
  env_keys env = fields (
      ("node_id", env_value env.node_id)
      ∷ ("pubkey", env_value env.pubkey)
      ∷ ("privkey", env_value env.privkey)
      ∷ ("verify_key", env_value env.verify_key)
      ∷ ("signkey", env_value env.signkey)
      ∷ [])

  -- Every key named has a value that counts as true.
  abbrev pub has_all : List String → Fields F → Bool
  has_all [] keys = true
  has_all (name ∷ names) keys = truthy (get_field keys name) && has_all names keys

  -- The end of `load_keys`; none is the SystemExit.
  abbrev pub checked_keys : Fields F → Option (Fields F)
  checked_keys keys = if has_all key_names keys then some keys else none

  -- The keys of the file at a path, which is made where there is none. `json.load` of what is no
  -- dict makes `keys.get` raise.
  unfoldable pub keys_at : String → KeyDraw → Option String → Disk → Disk × Option (Fields F)
  keys_at path draw node_id disk =
      if exists disk path then (disk, do keys ← read_dict path disk; checked_keys keys) else (
        put disk (pl.abspath path) (rt.dumps_indented (obj (make_keys draw node_id))),
        checked_keys (make_keys draw node_id),
      )

  unfoldable pub load_keys :
      KeyEnv → Option String → KeyDraw → Option String → Disk → Disk × Option (Fields F)
  load_keys env path draw node_id disk =
      if has_all key_names (env_keys env) then (disk, some (env_keys env)) else elim path [
        | none ↦ (disk, none)
        | some file ↦ if not (nonempty file) then (disk, none) else keys_at file draw node_id disk
      ]
