-- ===== src/Crypto/Pairs.antt =====
-- What a pair of keys of pygrid/crypto.py is good for, as PyNaCl and base64 have it.
use nycc_grid.Base.{String, ◌≡◌, true, some, arith}
use nycc_grid.Json.{nonempty}
use nycc_grid.Runtime.{Bytes, Platform}
use nycc_grid.Crypto.{b64e, b64d, sign, verify}
use nycc_grid.Crypto.Box.{seal, unseal, unseal-seal}

-- A pair of signing keys in base64: what the one signs the other accepts.
pub record IsSignPair ⦃pl : Platform⦄ (verify_b64 sign_b64 : String) : Type 0 where
  pub accepts :
      (message sig : Bytes)
      → sign sign_b64 message ≡ some sig
      → verify verify_b64 message sig ≡ true
  pub survives :
      (message sig : Bytes) → sign sign_b64 message ≡ some sig → b64d (b64e sig) ≡ some sig
  pub some_text :
      (message sig : Bytes) → sign sign_b64 message ≡ some sig → nonempty (b64e sig) ≡ true

-- A pair of box keys in base64 that opens what is sealed to it of a plain text, and base64 of what
-- is sealed.
pub record IsBoxPair ⦃pl : Platform⦄ (pub_b64 prv_b64 : String) (plain : Bytes) : Type 0 where
  pub public : Bytes
  pub private : Bytes
  pub public_decodes : b64d pub_b64 ≡ some public
  pub private_decodes : b64d prv_b64 ≡ some private
  pub match : pl.box_public private ≡ some public
  pub opens :
      (draw sealed : Bytes)
      → pl.box_seal public draw plain ≡ some sealed
      → pl.box_open private sealed ≡ some plain
  pub survives :
      (draw sealed : Bytes)
      → pl.box_seal public draw plain ≡ some sealed
      → (b64d (b64e sealed) ≡ some sealed)
        × (pl.b64decode_lenient (b64e sealed) ≡ some sealed)
        × (nonempty (b64e sealed) ≡ true)

module _ ⦃pl : Platform⦄ where
  pub seal-IsBoxPair :
      (pub_b64 prv_b64 : String) (draw plain sealed : Bytes) (k : IsBoxPair pub_b64 prv_b64 plain)
      → seal pub_b64 draw plain ≡ some sealed
      → pl.box_seal k.public draw plain ≡ some sealed
  unfolding seal
  seal-IsBoxPair pub_b64 prv_b64 draw plain sealed k h = ground (arith, k.public_decodes, h)

  pub unseal-IsBoxPair :
      (pub_b64 prv_b64 : String) (draw plain sealed : Bytes) (k : IsBoxPair pub_b64 prv_b64 plain)
      → seal pub_b64 draw plain ≡ some sealed
      → unseal prv_b64 pub_b64 sealed ≡ some plain
  unseal-IsBoxPair pub_b64 prv_b64 draw plain sealed k h =
      unseal-seal prv_b64 pub_b64 k.private k.public draw plain sealed k.private_decodes
        k.public_decodes k.match (λ blob e. k.opens draw blob e) h
