-- ===== src/Client.antt =====
-- The read side of GridClient in pygrid/client.py: the walk over the node list and the check of
-- receipts. `fetch k path` is what the k-th `_call("GET", path)` of a walk returns, and none is
-- the exception that it raises.
pub mod Receipts
pub mod Pages
pub mod Walk
pub mod Complete
pub mod Setup
pub mod Calls
pub mod Choice
pub mod Submit
pub mod Wait
pub mod Answer
pub mod JobFile
pub mod Line
pub mod Delivery
pub mod Admitted
use mathlib.Core.Option
use nycc_grid.Base.{
  if◌then◌else◌, ℕ, zero, suc, String, Bool, true, false, not, Option, none, some, List, [], ◌∷◌,
  ◌++◌,
}
use nycc_grid.Base.Int.{ℤ, pos}
use nycc_grid.Json.{
  Json, Items, Fields, get_field, as_str, as_obj, is_str, null, arr, obj, nil, cons,
}
use nycc_grid.Runtime.{Bytes, Platform, Runtime, truthy}
use nycc_grid.Text.{◌>>=◌, to_str}
use nycc_grid.Crypto.{◌+++◌, b64d, verify, canonical_json}

abbrev pub nodes_page_limit : ℕ
nodes_page_limit = 50

abbrev pub max_node_pages : ℕ
max_node_pages = 100

abbrev pub guard : Bool → Option (Unit {0})
guard true = some tt
guard false = none

module _ {F : Type 0} ⦃pl : Platform⦄ ⦃rt : Runtime F⦄ where
  -- The path of a page. A cursor that is no text and counts as true makes `quote` raise.
  unfoldable pub page_path : ℤ → Json F → Option String
  page_path limit cursor =
      let path = "/v1/nodes?limit=" +++ pl.str_of_int limit in
      if not (truthy cursor)
      then some path
      else Option.map (λ c. path +++ "&cursor=" +++ pl.quote c) (as_str cursor)

  -- `[n for n in page if isinstance(n, dict)]`
  unfoldable pub records : Items F → List (Fields F)
  records nil = []
  records (cons (obj d) xs) = d ∷ records xs
  records (cons _ xs) = records xs

  -- `doc.get("nodes") or []`, which has to be a list.
  unfoldable pub page_of : Fields F → Option (List (Fields F))
  page_of doc =
      if not (truthy (get_field doc "nodes"))
      then some []
      else elim (get_field doc "nodes") [ arr xs ↦ some (records xs) | _ ↦ none ]

module _ {F : Type 0} ⦃rt : Runtime F⦄ where
  -- `next((n for n in nodes if n.get("node_id") == node_id), None)`
  unfoldable pub find_node : Json F → List (Fields F) → Option (Fields F)
  find_node node_id [] = none
  find_node node_id (n ∷ ns) =
      let rest = find_node node_id ns in
      if rt.same (get_field n "node_id") node_id then some n else rest

  -- `str(node.get("verify_key") or "")`
  unfoldable pub key_of_record : Fields F → String
  key_of_record node =
      if truthy (get_field node "verify_key") then to_str (get_field node "verify_key") else ""

module _ {F : Type 0} ⦃pl : Platform⦄ ⦃rt : Runtime F⦄
    (fetch : ℕ → String → Option (Fields F)) where
  -- The rounds of the loop from page `k` on.
  unfoldable pub node_pages : ℕ → ℕ → ℤ → Json F → Option (List (Fields F))
  node_pages zero k limit cursor = some []
  node_pages (suc rounds) k limit cursor = do
    path ← page_path limit cursor
    doc ← fetch k path
    page ← page_of doc
    let rest = node_pages rounds (suc k) limit (get_field doc "cursor")
    if not (truthy (get_field doc "cursor"))
        then some page
        else Option.map (λ more. page ++ more) rest

  unfoldable pub nodes : ℤ → Option (List (Fields F))
  nodes limit = node_pages max_node_pages 0 limit null

  -- The body of `verify_receipt`; none is False, or an exception, which becomes False.
  unfoldable pub checked_receipt : String → Fields F → Bytes → Option Bool
  checked_receipt job_id signed result_raw = do
    receipt ← as_obj (get_field signed "receipt")
    sig_b64 ← as_str (get_field signed "sig")
    sig ← b64d sig_b64
    _ ← guard (is_str (get_field receipt "job_id") job_id)
    _ ← guard (is_str (get_field receipt "result_sha256") (pl.sha256_hex result_raw))
    listed ← nodes (pos nodes_page_limit)
    node ← find_node (get_field receipt "node_id") listed
    some (verify (key_of_record node) (canonical_json (obj receipt)) sig)

  unfoldable pub verify_receipt : String → Fields F → Bytes → Bool
  verify_receipt job_id signed result_raw = elim (checked_receipt job_id signed result_raw) [
    | none ↦ false
    | some b ↦ b
  ]
