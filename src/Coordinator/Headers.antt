-- ===== src/Coordinator/Headers.antt =====
-- Requests as the handlers of pygrid/testkit.py see them: the headers, and the member's signature.
use nycc_grid.Base.{
  if◌then◌else◌, ◌==◌, String, Option, none, some, List, [], ◌∷◌, nat_eq, string_eq, pair_eq,
}
use nycc_grid.Base.Dict.{Dict, get, put}
use nycc_grid.Json.{nonempty}
use nycc_grid.Runtime.{Bytes, Platform}
use nycc_grid.Text.{◌>>=◌}
use nycc_grid.Crypto.{signing_message}
use nycc_grid.Crypto.Header

-- A request as the handler has it: the raw target, the headers as they were sent, and the bytes
-- that follow them on the connection.
pub record Request : Type 0 where
  pub target : String
  pub headers : List (String × String)
  pub stream : Bytes

module _ ⦃pl : Platform⦄ where
  -- `self._headers()`: names in lower case; a later header of a name overwrites an earlier one.
  unfoldable pub headers_dict : Dict String String → List (String × String) → Dict String String
  headers_dict d [] = d
  headers_dict d ((k, v) ∷ hs) = headers_dict (put d (pl.lower k) v) hs

  -- `self.headers.get(name)`: the first header of the name, in any case.
  unfoldable pub header_of : String → List (String × String) → Option String
  header_of name [] = none
  header_of name ((k, v) ∷ hs) = if pl.lower k == pl.lower name then some v else header_of name hs

  -- A header of the lowercased dict that is there and not empty.
  abbrev pub filled : Dict String String → String → Option String
  filled hdrs name = elim (get hdrs (pl.lower name)) [
    | none ↦ none
    | some v ↦ if nonempty v then some v else none
  ]

-- The three member headers of a signed submission.
pub record MemberHeaders : Type 0 where
  pub ts : String
  pub nonce : String
  pub sig_b64 : String

module _ ⦃pl : Platform⦄ where
  -- none is the denial `member_sig_missing`.
  unfoldable pub member_headers : Dict String String → Option MemberHeaders
  member_headers hdrs = do
    ts ← filled hdrs Header.member_timestamp
    nonce ← filled hdrs Header.member_nonce
    sig_b64 ← filled hdrs Header.member_signature
    some (record { ts = ts; nonce = nonce; sig_b64 = sig_b64 })

module _ ⦃pl : Platform⦄ where
  -- The message that a member signs: the host as the client named it, the target as it was sent.
  unfoldable pub member_message : Request → MemberHeaders → Bytes → Bytes
  member_message req m raw =
      signing_message (pl.lower (elim (header_of "Host" req.headers) [ none ↦ "" | some h ↦ h ]))
        "POST" req.target m.ts m.nonce raw
