-- ===== src/Crypto/Box.antt =====
-- Sealed boxes and new keys of pygrid/crypto.py.
use nycc_grid.Base.{
  if◌then◌else◌, String, ◌≡◌, refl, ◌≢◌, true, not, Option, none, some, [], ◌∷◌, arith,
}
use nycc_grid.Json.{nonempty}
use nycc_grid.Runtime.{Bytes, Platform}
use nycc_grid.Text.{◌>>=◌, bytes_eq}
use nycc_grid.Crypto.{b64e, b64d}

module _ ⦃pl : Platform⦄ where
  -- `keygen`: the public and the private key, from a draw of the random source.
  unfoldable pub keygen : Bytes → String × String
  keygen draw = let (pub_raw, prv_raw) = pl.box_keypair draw in (b64e pub_raw, b64e prv_raw)

  unfoldable pub sign_keygen : Bytes → String × String
  sign_keygen draw = let (verify_raw, seed) = pl.sign_keypair draw in (b64e verify_raw, b64e seed)

  -- `new_nonce`, from a draw of 16 bytes.
  unfoldable pub new_nonce : Bytes → String
  new_nonce draw = b64e draw

  -- `seal`, with the draw of the ephemeral key; none where it raises.
  unfoldable pub seal : String → Bytes → Bytes → Option Bytes
  seal pub_b64 draw plain = do key ← b64d pub_b64; pl.box_seal key draw plain

  -- The check of `unseal` that the two halves belong together; an empty public half is no check.
  unfoldable pub halves_match : String → Bytes → Option (Unit {0})
  halves_match pub_b64 public = if not (nonempty pub_b64) then some tt else elim (b64d pub_b64) [
    | none ↦ none
    | some key ↦ if bytes_eq key public then some tt else none
  ]

  unfoldable pub unseal : String → String → Bytes → Option Bytes
  unseal prv_b64 pub_b64 blob = do
    key ← b64d prv_b64
    public ← pl.box_public key
    _ ← halves_match pub_b64 public
    pl.box_open key blob

  bytes_eq_refl : (raw : Bytes) → bytes_eq raw raw ≡ true
  bytes_eq_refl [] = refl
  bytes_eq_refl (b ∷ raw) = ground (arith, bytes_eq_refl raw)

  bytes_eq_path : (a b : Bytes) → bytes_eq a b ≡ true → a ≡ b
  bytes_eq_path [] [] h = refl
  bytes_eq_path [] (y ∷ b) h = cc
  bytes_eq_path (x ∷ a) [] h = cc
  bytes_eq_path (x ∷ a) (y ∷ b) h = ground (arith, bytes_eq_path a b)

  -- What is sealed to a key is opened with the private half of that key, whether or not the
  -- public half is given along.
  pub unseal-seal :
      (prv_b64 pub_b64 : String) (prv public draw plain blob : Bytes)
      → b64d prv_b64 ≡ some prv
      → b64d pub_b64 ≡ some public
      → pl.box_public prv ≡ some public
      → ((sealed : Bytes)
          → pl.box_seal public draw plain ≡ some sealed
          → pl.box_open prv sealed ≡ some plain)
      → seal pub_b64 draw plain ≡ some blob
      → unseal prv_b64 pub_b64 blob ≡ some plain
  unfolding seal unseal halves_match
  unseal-seal prv_b64 pub_b64 prv public draw plain blob hp hq match opens sealed =
      ground (arith, bytes_eq_refl public, opens blob)

  -- A pair of keys whose halves do not belong together opens nothing.
  pub unseal_mixup :
      (prv_b64 pub_b64 : String) (prv public other blob : Bytes)
      → b64d prv_b64 ≡ some prv
      → pl.box_public prv ≡ some public
      → nonempty pub_b64 ≡ true
      → b64d pub_b64 ≡ some other
      → other ≢ public
      → unseal prv_b64 pub_b64 blob ≡ none
  unfolding unseal halves_match
  unseal_mixup prv_b64 pub_b64 prv public other blob hp hq some_text ho differ =
      ground (arith, bytes_eq_path other public)
