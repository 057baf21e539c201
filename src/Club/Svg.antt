-- ===== src/Club/Svg.antt =====
-- `render_svg` of pygrid/club.py: the printed card.
use Prim.Native.String.{slice}
use nycc_grid.Base.{ℕ, ◌+◌, String, Option, some, List, [], ◌∷◌, ◌++◌}
use nycc_grid.Base.Int.{pos}
use nycc_grid.Json.{Json, Fields, get_field, as_obj, str}
use nycc_grid.Text.{◌>>=◌, to_str, get_or}
use nycc_grid.Runtime.{Platform, Runtime}
use nycc_grid.Crypto.{◌+++◌}
use nycc_grid.Club.Art.{esc}
use nycc_grid.Club.Fingerprint.{fingerprint_lines}

abbrev pub card_w : ℕ
card_w = 856

abbrev pub card_h : ℕ
card_h = 540

abbrev pub ink : String
ink = "#EDE6DA"

abbrev pub ground_color : String
ground_color = "#0E0C0A"

abbrev pub orange : String
orange = "#FF4E00"

abbrev pub fade : String
fade = "#8E8472"

abbrev pub mono : String
mono = "ui-monospace, SFMono-Regular, Menlo, Consolas, monospace"

-- `"\n".join(lines)`
abbrev join_lines : List String → String
join_lines [] = ""
join_lines (line ∷ []) = line
join_lines (line ∷ next ∷ lines) = line +++ "\n" +++ join_lines (next ∷ lines)

module _ ⦃pl : Platform⦄ where
  -- `"%d" % n`
  abbrev shown : ℕ → String
  shown n = pl.str_of_int (pos n)

  -- The lines in front of the rows, with the texts of the card.
  unfoldable pub card_frame : String → String → String → List String
  card_frame member serial issued =
      ("<svg xmlns=\"http://www.w3.org/2000/svg\" viewBox=\"0 0 "
        +++ shown card_w
        +++ " "
        +++ shown card_h
        +++ "\" width=\""
        +++ shown card_w
        +++ "\" height=\""
        +++ shown card_h
        +++ "\" role=\"img\" aria-label=\"new york compute club membership card\">")
      ∷ ("<rect width=\""
          +++ shown card_w
          +++ "\" height=\""
          +++ shown card_h
          +++ "\" fill=\""
          +++ ground_color
          +++ "\"/>")
      ∷ ("<circle cx=\"792\" cy=\"86\" r=\"14\" fill=\"" +++ orange +++ "\"/>")
      ∷ ("<g font-family=\"" +++ esc mono +++ "\" fill=\"" +++ ink +++ "\">")
      ∷ "<text x=\"56\" y=\"94\" font-size=\"24\" letter-spacing=\"6\">NEW YORK COMPUTE CLUB</text>"
      ∷ ("<text x=\"56\" y=\"300\" font-size=\"42\">" +++ member +++ "</text>")
      ∷ ("<text x=\"56\" y=\"348\" font-size=\"18\">no. " +++ serial +++ "</text>")
      ∷ ("<text x=\"56\" y=\"378\" font-size=\"18\">issued " +++ issued +++ "</text>")
      ∷ "</g>"
      ∷ ("<g font-family=\""
          +++ esc mono
          +++ "\" fill=\""
          +++ fade
          +++ "\" font-size=\"15\" letter-spacing=\"1\">")
      ∷ []

  -- The loop over the rows of the fingerprint, from the height `y` on.
  unfoldable pub row_lines : ℕ → List String → List String
  row_lines y [] = []
  row_lines y (row ∷ rows) =
      ("<text x=\"56\" y=\"" +++ shown y +++ "\">" +++ esc row +++ "</text>")
      ∷ row_lines (y + 22) rows

  unfoldable pub card_lines : String → String → String → List String → List String
  card_lines member serial issued rows =
      card_frame (esc member) (esc serial) (esc issued)
      ++ (row_lines 442 rows ++ "</g>" ∷ "</svg>" ∷ [])

module _ {F : Type 0} ⦃pl : Platform⦄ ⦃rt : Runtime F⦄ where
  -- `str(card.get(name, ""))`
  abbrev text_field : Fields F → String → String
  text_field card name = to_str (get_or card name (str ""))

  -- `render_svg`; none is an exception.
  unfoldable pub render_svg : Json F → Option String
  render_svg value = do
    doc ← as_obj value
    card ← as_obj (get_field doc "card")
    rows ← fingerprint_lines (text_field card "member_verify_key") 4
    some (
        join_lines (
          card_lines (text_field card "member") (text_field card "serial")
            (slice (text_field card "issued") 0 10) rows)
        +++ "\n")
