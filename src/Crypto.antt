-- ===== src/Crypto.antt =====
-- pygrid/crypto.py: base64, signatures, the canonical json of signed documents and the canonical
-- string of signed requests. Keys are base64 texts, as in the source.
pub mod Header
pub mod Box
pub mod Pairs
pub mod Wire
pub mod Canonical
use Prim.Native.String.{◌++◌ as text_append}
use nycc_grid.Base.{if◌then◌else◌, ℕ, String, Bool, false, Option, none, some, [], ◌∷◌, ◌++◌}
use nycc_grid.Base.Dict.{Dict}
use nycc_grid.Json.{
  Json, Items, Fields, nonempty, null, bool, int, float, str, arr, obj, nil, cons, end, field,
}
use nycc_grid.Runtime.{Bytes, Platform, Runtime}
use nycc_grid.Text.{◌>>=◌}

infixr 65 ◌+++◌
abbrev pub ◌+++◌ : String → String → String
a +++ b = text_append a b

abbrev pub sign_domain : String
sign_domain = "nycc-grid-v1"

abbrev pub max_skew_s : ℕ
max_skew_s = 300

abbrev pub key_bytes : ℕ
key_bytes = 32

module _ ⦃pl : Platform⦄ where
  -- `b64e`, `b64d`
  abbrev pub b64e : Bytes → String
  b64e raw = pl.b64encode raw

  abbrev pub b64d : String → Option Bytes
  b64d text = pl.b64decode text

  -- none where pynacl or base64 raises
  unfoldable pub sign : String → Bytes → Option Bytes
  sign sign_b64 message = do seed ← pl.b64decode sign_b64; pl.ed25519_sign seed message

  -- never raises
  unfoldable pub verify : String → Bytes → Bytes → Bool
  verify verify_b64 message sig = elim (pl.b64decode verify_b64) [
    | none ↦ false
    | some key ↦ pl.ed25519_verify key message sig
  ]

  -- The text before the body of a signed request.
  unfoldable pub signing_head : String → String → String → String → String → String
  signing_head host method path timestamp nonce =
      sign_domain
      +++ "|"
      +++ host
      +++ "\n"
      +++ pl.upper method
      +++ "\n"
      +++ path
      +++ "\n"
      +++ timestamp
      +++ "\n"
      +++ nonce
      +++ "\n"

  unfoldable pub signing_message : String → String → String → String → String → Bytes → Bytes
  unfolding signing_head
  signing_message host method path timestamp nonce body =
      pl.utf8 (signing_head host method path timestamp nonce) ++ body

  -- `split_target`, on what `urlsplit` returns.
  unfoldable pub split_target : String → String × String
  split_target url =
      let path = if nonempty (pl.split_path url) then pl.split_path url else "/" in
      (
        pl.lower (pl.split_netloc url),
        if nonempty (pl.split_query url) then path +++ "?" +++ pl.split_query url else path,
      )

  -- `_request_signature`: the timestamp, the nonce and the signature. A time or a nonce that the
  -- caller leaves out comes in as the clock and the random source give it.
  unfoldable pub request_signature :
      String → String → String → Bytes → String → String → Option (String × String × String)
  unfolding split_target
  request_signature sign_b64 url method body ts nonce = do
    sig ←
        sign sign_b64
          (signing_message (split_target url).0 method (split_target url).1 ts nonce body)
    some (ts, nonce, b64e sig)

  unfoldable pub signed_headers :
      String → String → String → String → Bytes → String → String → Option (Dict String String)
  signed_headers node_id sign_b64 url method body timestamp nonce = do
    (ts, nce, sig) ← request_signature sign_b64 url method body timestamp nonce
    some (
        (Header.node_id, node_id)
        ∷ (Header.timestamp, ts)
        ∷ (Header.nonce, nce)
        ∷ (Header.signature, sig)
        ∷ [])

  unfoldable pub member_signed_headers :
      String → String → String → Bytes → String → String → Option (Dict String String)
  member_signed_headers sign_b64 url method body timestamp nonce = do
    (ts, nce, sig) ← request_signature sign_b64 url method body timestamp nonce
    some (
        (Header.member_timestamp, ts)
        ∷ (Header.member_nonce, nce)
        ∷ (Header.member_signature, sig)
        ∷ [])

module _ {F : Type 0} ⦃rt : Runtime F⦄ where
  -- `_js_numbers`: every integral float becomes the int that javascript prints.
  unfoldable mutual
    pub js_numbers : Json F → Json F
    js_numbers null = null
    js_numbers (bool b) = bool b
    js_numbers (int z) = int z
    js_numbers (float x) = elim (rt.integral x) [ some z ↦ int z | none ↦ float x ]
    js_numbers (str s) = str s
    js_numbers (arr xs) = arr (js_items xs)
    js_numbers (obj d) = obj (js_fields d)

    pub js_items : Items F → Items F
    js_items nil = nil
    js_items (cons v xs) = cons (js_numbers v) (js_items xs)

    pub js_fields : Fields F → Fields F
    js_fields end = end
    js_fields (field k v d) = field k (js_numbers v) (js_fields d)

module _ {F : Type 0} ⦃pl : Platform⦄ ⦃rt : Runtime F⦄ where
  unfoldable pub canonical_json : Json F → Bytes
  canonical_json doc = pl.utf8 (rt.dumps_canonical (js_numbers doc))
