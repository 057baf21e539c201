-- ===== src/Tests/Toy.antt =====
-- A small platform and runtime for the runs: whole numbers for floats, one key and one signature
-- that decode, texts that stand for themselves.
mod Documents
pub use nycc_grid.Tests.Toy.Documents.{
  toy_hash, register_body, submit_body, result_body, card_fields, card_document, prompt_fields,
  choices, waiting, small_receipt, finished, club_fields, node_keys, job_fields, node_sorted,
  envelope_sorted,
}
use nycc_grid.Base.{
  ltb, leb, nat_beq, if◌then◌else◌, ◌==◌, ℕ, zero, suc, ◌+◌, ◌-◌, ◌*◌, String, Bool, true, false,
  not, ◌&&◌, Option, none, some, List, [], ◌∷◌, string_eq, pair_eq, nat_eq,
}
use nycc_grid.Base.Int.{ℤ, pos, negsuc}
use nycc_grid.Json.{Json, has_field, fields, str, obj}
use nycc_grid.Runtime.{Bytes, Platform, Runtime}
use nycc_grid.Text.{codes}

abbrev pub zeros : ℕ → Bytes
zeros zero = []
zeros (suc n) = 0 ∷ zeros n

abbrev toy_decode : String → Option Bytes
toy_decode s =
    if s == "key"
    then some (zeros 32)
    else if s == "sig"
    then some (7 ∷ [])
    else if s == "card"
    then some (4 ∷ [])
    else none

abbrev toy_verify : Bytes → Bool
toy_verify (n ∷ ns) = nat_beq n 7
toy_verify [] = false

-- The urls of a walk with one node to a page; any other url is a path.
abbrev toy_path : String → String
toy_path s =
    if s == "/v1/nodes?limit=1"
    then "/v1/nodes"
    else if s == "/v1/nodes?limit=1&cursor=m"
    then "/v1/nodes"
    else if s == "/v1/nodes?limit=1&cursor=n"
    then "/v1/nodes"
    else s

abbrev toy_query : String → List (String × String)
toy_query s =
    if s == "/v1/nodes?limit=1"
    then ("limit", "1") ∷ []
    else if s == "/v1/nodes?limit=1&cursor=m"
    then ("limit", "1") ∷ ("cursor", "m") ∷ []
    else if s == "/v1/nodes?limit=1&cursor=n"
    then ("limit", "1") ∷ ("cursor", "n") ∷ []
    else ("node_id", "n") ∷ []

instance abbrev pub toy_platform : Platform
toy_platform = record {
  int_of_str = λ s. if s == "1" then some (pos 1) else if s == "100" then some (pos 100) else none;
  str_of_int = λ z. "1";
  is_decimal = λ c. leb b'0' c && leb c b'9';
  is_printable = λ s. true;
  lower = λ s. s;
  upper = λ s. s;
  split_netloc = λ s. s;
  split_path = λ s. "/";
  split_query = λ s. "";
  url_path = toy_path;
  url_query = λ s. s;
  parse_query = toy_query;
  unquote = λ s. s;
  quote = λ s. s;
  utf8 = codes;
  b64encode = λ raw. "sig";
  b64decode = toy_decode;
  b64decode_lenient = toy_decode;
  decode_replace = λ raw. "text";
  box_keypair = λ draw. (zeros 32, zeros 32);
  box_public = λ key. some key;
  box_seal = λ key draw text. some (7 ∷ []);
  box_open = λ key blob. some (codes "json");
  sign_keypair = λ draw. (zeros 32, zeros 32);
  splitlines = λ s. s ∷ [];
  strip = λ s. s;
  abspath = λ s. s;
  beside = λ s name. name;
  rstrip_slash = λ s. s;
  sha256_hex = λ raw. toy_hash;
  ed25519_sign = λ seed message. some (7 ∷ []);
  ed25519_verify = λ key message sig. toy_verify sig;
}

-- The texts that the files hold, and the answer of the engine.
abbrev toy_dumps_canonical : Json ℕ → String
toy_dumps_canonical (obj d) =
    if has_field d "to_node" then "envelope" else if has_field d "last_seen" then "node" else "json"
toy_dumps_canonical v = "json"

abbrev toy_dumps_indented : Json ℕ → String
toy_dumps_indented (obj d) = if has_field d "job_id" then "job" else "json"
toy_dumps_indented v = "json"

abbrev toy_loads_str : String → Option (Json ℕ)
toy_loads_str s =
    if s == "text"
    then some (obj (fields (("text", str "answer") ∷ [])))
    else if s == "club"
    then some (obj club_fields)
    else if s == "json"
    then some (obj node_keys)
    else if s == "json\n"
    then some (obj card_document)
    else if s == "job\n"
    then some (obj job_fields)
    else if s == "envelope"
    then some (obj envelope_sorted)
    else if s == "node"
    then some (obj node_sorted)
    else none

-- The first byte of a body names the document.
abbrev toy_loads : Bytes → Option (Json ℕ)
toy_loads [] = none
toy_loads (n ∷ ns) =
    if nat_beq n 1
    then some (obj register_body)
    else if nat_beq n 2
    then some (obj submit_body)
    else if nat_beq n 3
    then some (obj result_body)
    else if nat_beq n 4
    then some (obj card_document)
    else if nat_beq n 7
    then some (obj prompt_fields)
    else if nat_beq n 8
    then some (obj choices)
    else if nat_beq n 9
    then some (obj waiting)
    else if nat_beq n 12
    then some (obj finished)
    else if nat_beq n b'j'
    then some (obj prompt_fields)
    else none

abbrev nat_sum : List ℕ → ℕ
nat_sum [] = 0
nat_sum (x ∷ xs) = x + nat_sum xs

abbrev magnitude : ℤ → Option ℕ
magnitude (pos n) = some n
magnitude (negsuc n) = none

abbrev toy_same : Json ℕ → Json ℕ → Bool
toy_same (str s) (str t) = s == t
toy_same _ _ = false

instance abbrev pub toy_runtime : Runtime ℕ
toy_runtime = record {
  zero = 0;
  one = 1;
  literal = λ n. n;
  quarter = 1;
  float_of_int = magnitude;
  float_of_str = λ s. none;
  infinity = 1000000;
  add = λ x y. x + y;
  sub = λ x y. x - y;
  mul = λ x y. x * y;
  abs = λ x. x;
  le = leb;
  lt = ltb;
  nonzero = λ x. not (nat_beq x 0);
  sum = nat_sum;
  round1 = λ x. x;
  format1 = λ x. "1.0";
  is_finite = λ x. true;
  integral = λ x. some (pos x);
  truncate = λ x. some (pos x);
  round_int = λ x. some (pos x);
  same = toy_same;
  str_of = λ v. "value";
  loads = toy_loads;
  loads_escapes = λ raw. false;
  loads_str = toy_loads_str;
  dumps = λ v. "json";
  dumps_canonical = toy_dumps_canonical;
  dumps_file = λ v. "json";
  dumps_indented = toy_dumps_indented;
}
