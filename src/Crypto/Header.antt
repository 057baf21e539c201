-- ===== src/Crypto/Header.antt =====
-- The header names of pygrid/crypto.py, as they are sent.
use nycc_grid.Base.{String}

abbrev pub node_id : String
node_id = "X-NYCC-Node-Id"

abbrev pub timestamp : String
timestamp = "X-NYCC-Timestamp"

abbrev pub nonce : String
nonce = "X-NYCC-Nonce"

abbrev pub signature : String
signature = "X-NYCC-Signature"

abbrev pub card : String
card = "X-NYCC-Card"

abbrev pub member_timestamp : String
member_timestamp = "X-NYCC-Member-Ts"

abbrev pub member_nonce : String
member_nonce = "X-NYCC-Member-Nonce"

abbrev pub member_signature : String
member_signature = "X-NYCC-Member-Sig"
