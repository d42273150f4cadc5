-- ===== src/Timestamp/Font/UpperA.antt =====
-- The part of `draw_table` in src/timestamp.c with A to I.
use camkit.Base.{List, [], ◌∷◌}
use camkit.Timestamp.Font.Glyph.{DrawChar, glyph, row}

abbrev pub upper_a_to_i : List DrawChar
upper_a_to_i =
    glyph 65 (
      row 0 0 1 1 1 0 0
      ∷ row 0 1 2 2 2 1 0
      ∷ row 1 2 1 1 1 2 1
      ∷ row 1 2 1 1 1 2 1
      ∷ row 1 2 2 2 2 2 1
      ∷ row 1 2 1 1 1 2 1
      ∷ row 1 2 1 0 1 2 1
      ∷ row 0 1 0 0 0 1 0
      ∷ [])
    ∷ glyph 66 (
        row 0 1 1 1 1 0 0
        ∷ row 1 2 2 2 2 1 0
        ∷ row 1 2 1 1 1 2 1
        ∷ row 1 2 2 2 2 1 0
        ∷ row 1 2 1 1 1 2 1
        ∷ row 1 2 1 1 1 2 1
        ∷ row 1 2 2 2 2 1 0
        ∷ row 0 1 1 1 1 0 0
        ∷ [])
    ∷ glyph 67 (
        row 0 0 1 1 1 0 0
        ∷ row 0 1 2 2 2 1 0
        ∷ row 1 2 1 1 1 2 1
        ∷ row 1 2 1 0 0 1 0
        ∷ row 1 2 1 0 0 1 0
        ∷ row 1 2 1 1 1 2 1
        ∷ row 0 1 2 2 2 1 0
        ∷ row 0 0 1 1 1 0 0
        ∷ [])
    ∷ glyph 68 (
        row 0 1 1 1 1 0 0
        ∷ row 1 2 2 2 2 1 0
        ∷ row 1 2 1 1 1 2 1
        ∷ row 1 2 1 0 1 2 1
        ∷ row 1 2 1 0 1 2 1
        ∷ row 1 2 1 1 1 2 1
        ∷ row 1 2 2 2 2 1 0
        ∷ row 0 1 1 1 1 0 0
        ∷ [])
    ∷ glyph 69 (
        row 0 1 1 1 1 1 0
        ∷ row 1 2 2 2 2 2 1
        ∷ row 1 2 1 1 1 1 0
        ∷ row 1 2 2 2 2 1 0
        ∷ row 1 2 1 1 1 0 0
        ∷ row 1 2 1 1 1 1 0
        ∷ row 1 2 2 2 2 2 1
        ∷ row 0 1 1 1 1 1 0
        ∷ [])
    ∷ glyph 70 (
        row 0 1 1 1 1 1 0
        ∷ row 1 2 2 2 2 2 1
        ∷ row 1 2 1 1 1 1 0
        ∷ row 1 2 2 2 2 1 0
        ∷ row 1 2 1 1 1 0 0
        ∷ row 1 2 1 0 0 0 0
        ∷ row 1 2 1 0 0 0 0
        ∷ row 0 1 0 0 0 0 0
        ∷ [])
    ∷ glyph 71 (
        row 0 0 1 1 1 0 0
        ∷ row 0 1 2 2 2 1 0
        ∷ row 1 2 1 1 1 2 1
        ∷ row 1 2 1 1 1 1 0
        ∷ row 1 2 1 2 2 2 1
        ∷ row 1 2 1 1 1 2 1
        ∷ row 0 1 2 2 2 1 0
        ∷ row 0 0 1 1 1 0 0
        ∷ [])
    ∷ glyph 72 (
        row 0 1 0 0 0 1 0
        ∷ row 1 2 1 0 1 2 1
        ∷ row 1 2 1 1 1 2 1
        ∷ row 1 2 2 2 2 2 1
        ∷ row 1 2 1 1 1 2 1
        ∷ row 1 2 1 0 1 2 1
        ∷ row 1 2 1 0 1 2 1
        ∷ row 0 1 0 0 0 1 0
        ∷ [])
    ∷ glyph 73 (
        row 0 0 1 1 1 0 0
        ∷ row 0 1 2 2 2 1 0
        ∷ row 0 0 1 2 1 0 0
        ∷ row 0 0 1 2 1 0 0
        ∷ row 0 0 1 2 1 0 0
        ∷ row 0 0 1 2 1 0 0
        ∷ row 0 1 2 2 2 1 0
        ∷ row 0 0 1 1 1 0 0
        ∷ [])
    ∷ []
