-- ===== src/Runtime.antt =====
-- What the code calls and does not implement: Python's floats, text conversions and json module,
-- base64, sha256 and pynacl. Each field is the named call; `none` stands for the exception that
-- it raises. The fields have no laws: a theorem that needs one takes it as a hypothesis.
use nycc_grid.Base.{ℕ, String, Bool, true, false, Option, List}
use nycc_grid.Base.Int.{ℤ, is_nonzero}
use nycc_grid.Json.{Json, nonempty, null, bool, int, float, str, arr, obj, nil, cons, end, field}

-- A byte string: the values of its bytes.
abbrev pub Bytes : Type 0
Bytes = List ℕ

-- Texts, urls, base64, and pynacl.
pub record Platform : Type 0 where
  -- `int(s)` of a string; none is ValueError.
  pub int_of_str : String → Option ℤ
  -- `str(z)` of an integer
  pub str_of_int : ℤ → String
  -- what `\d` of the re module matches in a str: every decimal digit of unicode
  pub is_decimal : ℕ → Bool
  -- `s.isprintable()`, `s.lower()`, `s.upper()`
  pub is_printable : String → Bool
  pub lower : String → String
  pub upper : String → String
  -- `urlsplit(url)`: its netloc, path and query
  pub split_netloc : String → String
  pub split_path : String → String
  pub split_query : String → String
  -- `urlparse(url)`: its path and query
  pub url_path : String → String
  pub url_query : String → String
  -- `parse_qs(query)`, with the first value of each name
  pub parse_query : String → List (String × String)
  -- `unquote(s)`, and `quote(s, safe="")`
  pub unquote : String → String
  pub quote : String → String
  -- `s.encode("utf-8")`
  pub utf8 : String → Bytes
  -- `base64.b64encode(raw).decode("ascii")`
  pub b64encode : Bytes → String
  -- `base64.b64decode(text.encode("ascii"), validate=True)`; none is the exception.
  pub b64decode : String → Option Bytes
  -- `base64.b64decode(text.encode("ascii"), validate=False)`; none is the exception.
  pub b64decode_lenient : String → Option Bytes
  -- `raw.decode("utf-8", "replace")`
  pub decode_replace : Bytes → String
  -- `PrivateKey.generate()` from the draw of the random source: its public and its private bytes
  pub box_keypair : Bytes → Bytes × Bytes
  -- `bytes(PrivateKey(key).public_key)`; none is the exception.
  pub box_public : Bytes → Option Bytes
  -- `SealedBox(PublicKey(key)).encrypt(data)`, the draw in second place; none is the exception.
  pub box_seal : Bytes → Bytes → Bytes → Option Bytes
  -- `SealedBox(PrivateKey(key)).decrypt(blob)`; none is the exception.
  pub box_open : Bytes → Bytes → Option Bytes
  -- `SigningKey.generate()` from the draw: its verify key and its seed
  pub sign_keypair : Bytes → Bytes × Bytes
  -- `os.path.abspath(path)`, and `os.path.join(os.path.dirname(os.path.abspath(path)), name)`
  pub abspath : String → String
  pub beside : String → String → String
  -- `url.rstrip("/")`
  pub rstrip_slash : String → String
  -- `text.splitlines()`, `s.strip()`
  pub splitlines : String → List String
  pub strip : String → String
  -- `hashlib.sha256(raw).hexdigest()`
  pub sha256_hex : Bytes → String
  -- `SigningKey(seed).sign(data).signature`; none is the exception.
  pub ed25519_sign : Bytes → Bytes → Option Bytes
  -- `VerifyKey(key).verify(data, sig)`; false is the exception.
  pub ed25519_verify : Bytes → Bytes → Bytes → Bool

-- Floats and the json module.
pub record Runtime (F : Type 0) : Type 0 where
  -- `0.0`, `1.0`, and the float of a small literal of the code
  pub zero : F
  pub one : F
  pub literal : ℕ → F
  -- `0.25`
  pub quarter : F
  -- `float(z)`; none is OverflowError.
  pub float_of_int : ℤ → Option F
  -- `float(s)` of a string; none is ValueError.
  pub float_of_str : String → Option F
  -- `float("inf")`
  pub infinity : F
  -- `x + y`, `x - y`, `x * y`, `abs(x)`, `x <= y`, `x < y`, `x != 0.0`
  pub add : F → F → F
  pub sub : F → F → F
  pub mul : F → F → F
  pub abs : F → F
  pub le : F → F → Bool
  pub lt : F → F → Bool
  pub nonzero : F → Bool
  -- `sum(xs)` of some floats
  pub sum : List F → F
  -- `round(x, 1)`
  pub round1 : F → F
  -- `"%.1f" % x`
  pub format1 : F → String
  -- neither a nan nor an infinity
  pub is_finite : F → Bool
  -- `int(x)` where `x.is_integer()`, none where it is not
  pub integral : F → Option ℤ
  -- `int(x)`, `int(round(x))`; none is the exception of a nan or an infinity.
  pub truncate : F → Option ℤ
  pub round_int : F → Option ℤ
  -- `a == b` of two values
  pub same : Json F → Json F → Bool
  -- `str(value)` of a value that is no string
  pub str_of : Json F → String
  -- `json.loads(raw.decode("utf-8"))`; none is the exception.
  pub loads : Bytes → Option (Json F)
  -- whether that exception is neither a UnicodeDecodeError nor a JSONDecodeError: the ValueError of
  -- a number with too many digits, or a RecursionError
  pub loads_escapes : Bytes → Bool
  -- `json.loads(text)`; none is JSONDecodeError.
  pub loads_str : String → Option (Json F)
  -- `json.dumps(doc)`, and `json.dumps(doc, sort_keys=True, separators=(",", ":"))`
  pub dumps : Json F → String
  pub dumps_canonical : Json F → String
  -- `json.dumps(doc, indent=2, sort_keys=True)`
  pub dumps_file : Json F → String
  -- `json.dumps(doc, indent=2)`
  pub dumps_indented : Json F → String

module _ {F : Type 0} ⦃rt : Runtime F⦄ where
  -- `bool(value)`
  abbrev pub truthy : Json F → Bool
  truthy null = false
  truthy (bool b) = b
  truthy (int z) = is_nonzero z
  truthy (float x) = rt.nonzero x
  truthy (str s) = nonempty s
  truthy (arr nil) = false
  truthy (arr (cons _ _)) = true
  truthy (obj end) = false
  truthy (obj (field _ _ _)) = true
