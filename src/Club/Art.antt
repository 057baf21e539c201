-- ===== src/Club/Art.antt =====
-- `_esc` of pygrid/club.py: the texts of the printed card.
use Prim.Native.Char.{Char, code}
use nycc_grid.Base.{nat_beq, if◌then◌else◌, ℕ, String, ◌≡◌, refl, Bool, true, not, ◌&&◌, arith}

abbrev pub joined : String → String → String
joined String.[] t = t
joined (String.◌∷◌ c s) t = String.◌∷◌ c (joined s t)

-- `s.replace(old, new)` of one character.
unfoldable pub replace_char : Char → String → String → String
replace_char old new String.[] = String.[]
replace_char old new (String.◌∷◌ c s) =
    let rest = replace_char old new s in
    if nat_beq (code c) (code old) then joined new rest else String.◌∷◌ c rest

-- `_esc`
unfoldable pub esc : String → String
esc s =
    replace_char "\"" "&quot;"
      (replace_char ">" "&gt;" (replace_char "<" "&lt;" (replace_char "&" "&amp;" s)))

-- No character of a text has this code.
abbrev pub avoids : ℕ → String → Bool
avoids n String.[] = true
avoids n (String.◌∷◌ c s) = not (nat_beq (code c) n) && avoids n s

avoids-joined :
    (n : ℕ) (s t : String) → avoids n s ≡ true → avoids n t ≡ true → avoids n (joined s t) ≡ true
avoids-joined n String.[] t h k = k
avoids-joined n (String.◌∷◌ c s) t h k = ground (arith, h, avoids-joined n s t)

-- A text that is free of a code stays free of it if what is put in is free of it.
avoids-replace_char :
    (n : ℕ) (old : Char) (new s : String)
    → avoids n new ≡ true
    → avoids n s ≡ true
    → avoids n (replace_char old new s) ≡ true
unfolding replace_char
avoids-replace_char n old new String.[] h k = refl
avoids-replace_char n old new (String.◌∷◌ c s) h k =
    let rest = replace_char old new s in
    ground (arith, h, k, avoids-replace_char n old new s, avoids-joined n new rest)

-- The character replaced is gone, unless what is put in has it.
replace_char-removes :
    (old : Char) (new s : String)
    → avoids (code old) new ≡ true
    → avoids (code old) (replace_char old new s) ≡ true
unfolding replace_char
replace_char-removes old new String.[] h = refl
replace_char-removes old new (String.◌∷◌ c s) h =
    let rest = replace_char old new s in
    ground (arith, h, replace_char-removes old new s, avoids-joined (code old) new rest)

-- No text that `_esc` returns has a `<`, a `>` or a `"` in it: it can neither open nor close an
-- element or an attribute of the printed card.
pub esc-avoids :
    (s : String)
    → (avoids b'<' (esc s) ≡ true) × (avoids b'>' (esc s) ≡ true) × (avoids 34 (esc s) ≡ true)
unfolding esc
esc-avoids s =
    let amp = replace_char "&" "&amp;" s in
    let lt = replace_char "<" "&lt;" amp in
    let gt = replace_char ">" "&gt;" lt in
    let no_lt = replace_char-removes "<" "&lt;" amp refl in
    let no_gt = replace_char-removes ">" "&gt;" lt refl in
    (
      avoids-replace_char b'<' "\"" "&quot;" gt refl
          (avoids-replace_char b'<' ">" "&gt;" lt refl no_lt),
      avoids-replace_char b'>' "\"" "&quot;" gt refl no_gt,
      replace_char-removes "\"" "&quot;" gt refl,
    )
