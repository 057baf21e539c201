-- ===== src/Club/Fingerprint/Shape.antt =====
-- The layout of the fingerprint of pygrid/club.py.
use Prim.Native.Char.{Char}
use nycc_grid.Base.{length, All, length-map, String, ◌≡◌, ◌∙◌, some, List, map, arith}
use nycc_grid.Runtime.{Platform}
use nycc_grid.Club.Fingerprint.{
  chunks, text, join_spaces, concat, key_digest, fingerprint_groups, fingerprint_lines,
  concat-chunks, chunks-exact,
}

module _ ⦃pl : Platform⦄ where
  -- The printed fingerprint of a key: its groups, and the rows of those groups.
  pub record Shaped (verify_b64 : String) (digest : List Char) : Type 0 where
    pub groups : List (List Char)
    pub grouped : fingerprint_groups verify_b64 ≡ some (map text groups)
    pub whole : concat groups ≡ digest
    pub sixteen : length groups ≡ 16
    pub of_four : All (λ g. length g ≡ 4) groups
    pub rows : List (List String)
    pub lined : fingerprint_lines verify_b64 4 ≡ some (map join_spaces rows)
    pub all_groups : concat rows ≡ map text groups
    pub four_rows : length rows ≡ 4
    pub four_groups : All (λ r. length r ≡ 4) rows

  -- The fingerprint of a key whose digest has 64 characters, as that of sha256 does, is the whole
  -- digest in sixteen groups of four characters, and its lines are the same groups, in order, in
  -- four rows of four.
  pub fingerprint-Shaped :
      (verify_b64 : String) (digest : List Char)
      → key_digest verify_b64 ≡ some digest
      → length digest ≡ 64
      → Shaped verify_b64 digest
  unfolding fingerprint_groups fingerprint_lines
  fingerprint-Shaped verify_b64 digest h e =
      let groups = chunks (length digest) 4 digest in
      let (sixteen, of_four) =
        chunks-exact 16 (length digest) 4 digest (omega arith) (omega arith) (omega (arith, e)) in
      let texts = map text groups in
      let many : length texts ≡ 16 = length-map text groups ∙ sixteen in
      let (four_rows, four_groups) =
        chunks-exact 4 (length texts) 4 texts (omega arith) (omega arith) (omega (arith, many)) in
      record {
        groups = groups;
        grouped = ground (arith, h);
        whole = concat-chunks (length digest) 4 digest (omega arith) (omega arith);
        sixteen = sixteen;
        of_four = of_four;
        rows = chunks (length texts) 4 texts;
        lined = ground (arith, h);
        all_groups = concat-chunks (length texts) 4 texts (omega arith) (omega arith);
        four_rows = four_rows;
        four_groups = four_groups;
      }
