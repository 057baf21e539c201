-- ===== src/Tests/Toy/Documents.antt =====
-- The documents of the runs.
use nycc_grid.Base.{ℕ, String, [], ◌∷◌}
use nycc_grid.Base.Int.{pos}
use nycc_grid.Json.{Fields, fields, int, float, str, arr, obj, nil, cons}

abbrev pub toy_hash : String
toy_hash = "0123456789ABCDEF0123456789ABCDEF0123456789ABCDEF0123456789ABCDEF"

abbrev pub register_body : Fields ℕ
register_body = fields (
    ("node_id", str "n")
    ∷ ("pubkey", str "p")
    ∷ ("verify_key", str "v")
    ∷ ("wattage", float 65)
    ∷ [])

abbrev pub submit_body : Fields ℕ
submit_body = fields (
    ("to_node", str "n")
    ∷ ("blob_b64", str "sealed")
    ∷ ("reply_pubkey", str "r")
    ∷ ("idempotency_key", str "once")
    ∷ [])

abbrev pub result_body : Fields ℕ
result_body = fields (("job_id", str "j1") ∷ ("blob_b64", str "answer") ∷ [])

abbrev pub card_fields : Fields ℕ
card_fields = fields (
    ("issued", str "2026-08-19")
    ∷ ("member", str "ada")
    ∷ ("member_verify_key", str "key")
    ∷ ("serial", int (pos 5))
    ∷ [])

abbrev pub card_document : Fields ℕ
card_document = fields (("card", obj card_fields) ∷ ("sig", str "sig") ∷ [])

abbrev pub prompt_fields : Fields ℕ
prompt_fields =
    fields (("prompt", str "hi") ∷ ("max_tokens", int (pos 64)) ∷ ("temperature", float 0) ∷ [])

abbrev pub choices : Fields ℕ
choices = fields (("choices", arr (cons (obj (fields (("text", str "answer") ∷ []))) nil)) ∷ [])

abbrev pub waiting : Fields ℕ
waiting = fields (("status", str "queued") ∷ [])

abbrev pub small_receipt : Fields ℕ
small_receipt =
    fields (("job_id", str "j1") ∷ ("node_id", str "n") ∷ ("result_sha256", str toy_hash) ∷ [])

abbrev pub finished : Fields ℕ
finished = fields (
    ("status", str "done")
    ∷ ("blob_b64", str "sig")
    ∷ ("receipt", obj (fields (("receipt", obj small_receipt) ∷ ("sig", str "sig") ∷ [])))
    ∷ [])

abbrev pub club_fields : Fields ℕ
club_fields = fields (("signkey", str "key") ∷ ("verify_key", str "key") ∷ [])

abbrev pub node_keys : Fields ℕ
node_keys = fields (
    ("node_id", str "n")
    ∷ ("pubkey", str "sig")
    ∷ ("privkey", str "sig")
    ∷ ("verify_key", str "sig")
    ∷ ("signkey", str "sig")
    ∷ [])

abbrev pub job_fields : Fields ℕ
job_fields =
    fields (("job_id", str "j1") ∷ ("reply_pubkey", str "sig") ∷ ("reply_prvkey", str "sig") ∷ [])

-- The record of a node and an envelope, as json prints them with the keys in order.
abbrev pub node_sorted : Fields ℕ
node_sorted = fields (
    ("last_seen", float 0)
    ∷ ("neighborhood", str "harlem")
    ∷ ("node_id", str "n")
    ∷ ("pubkey", str "p")
    ∷ ("verify_key", str "v")
    ∷ ("wattage", float 65)
    ∷ ("watts_source", str "measured")
    ∷ [])

abbrev pub envelope_sorted : Fields ℕ
envelope_sorted = fields (
    ("blob_b64", str "sealed")
    ∷ ("job_id", str "j1")
    ∷ ("reply_pubkey", str "r")
    ∷ ("status", str "running")
    ∷ ("to_node", str "n")
    ∷ [])
