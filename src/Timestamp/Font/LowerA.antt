-- ===== src/Timestamp/Font/LowerA.antt =====
-- The part of `draw_table` in src/timestamp.c with a to i.
use camkit.Base.{List, [], ◌∷◌}
use camkit.Timestamp.Font.Glyph.{DrawChar, glyph, row}

abbrev pub lower_a_to_i : List DrawChar
lower_a_to_i =
    glyph 97 (
      row 0 0 0 0 0 0 0
      ∷ row 0 0 0 0 0 0 0
      ∷ row 0 0 1 1 1 1 0
      ∷ row 0 1 2 2 2 2 1
      ∷ row 1 2 1 1 1 2 1
      ∷ row 1 2 1 1 1 2 1
      ∷ row 0 1 2 2 2 2 1
      ∷ row 0 0 1 1 1 1 0
      ∷ [])
    ∷ glyph 98 (
        row 0 1 0 0 0 0 0
        ∷ row 1 2 1 0 0 0 0
        ∷ row 1 2 1 1 1 0 0
        ∷ row 1 2 2 2 2 1 0
        ∷ row 1 2 1 1 1 2 1
        ∷ row 1 2 1 1 1 2 1
        ∷ row 1 2 2 2 2 1 0
        ∷ row 0 1 1 1 1 0 0
        ∷ [])
    ∷ glyph 99 (
        row 0 0 0 0 0 0 0
        ∷ row 0 0 0 0 0 0 0
        ∷ row 0 0 1 1 1 1 0
        ∷ row 0 1 2 2 2 2 1
        ∷ row 1 2 1 1 1 1 0
        ∷ row 1 2 1 1 1 1 0
        ∷ row 0 1 2 2 2 2 1
        ∷ row 0 0 1 1 1 1 0
        ∷ [])
    ∷ glyph 100 (
        row 0 0 0 0 0 1 0
        ∷ row 0 0 0 0 1 2 1
        ∷ row 0 0 1 1 1 2 1
        ∷ row 0 1 2 2 2 2 1
        ∷ row 1 2 1 1 1 2 1
        ∷ row 1 2 1 1 1 2 1
        ∷ row 0 1 2 2 2 2 1
        ∷ row 0 0 1 1 1 1 0
        ∷ [])
    ∷ glyph 101 (
        row 0 0 0 0 0 0 0
        ∷ row 0 0 0 0 0 0 0
        ∷ row 0 0 1 1 1 0 0
        ∷ row 0 1 2 2 2 1 0
        ∷ row 1 2 2 1 1 2 1
        ∷ row 1 2 1 2 2 1 0
        ∷ row 0 1 2 2 2 2 1
        ∷ row 0 0 1 1 1 1 0
        ∷ [])
    ∷ glyph 102 (
        row 0 0 0 0 1 1 0
        ∷ row 0 0 0 1 2 2 1
        ∷ row 0 0 1 2 1 1 0
        ∷ row 0 1 2 2 2 1 0
        ∷ row 0 0 1 2 1 0 0
        ∷ row 0 0 1 2 1 0 0
        ∷ row 0 0 1 2 1 0 0
        ∷ row 0 0 0 1 0 0 0
        ∷ [])
    ∷ glyph 103 (
        row 0 0 0 0 0 0 0
        ∷ row 0 0 1 1 1 1 0
        ∷ row 0 1 2 2 2 2 1
        ∷ row 1 2 1 1 1 2 1
        ∷ row 0 1 2 2 2 2 1
        ∷ row 0 1 1 1 1 2 1
        ∷ row 1 2 2 2 2 1 0
        ∷ row 0 1 1 1 1 0 0
        ∷ [])
    ∷ glyph 104 (
        row 0 1 0 0 0 0 0
        ∷ row 1 2 1 0 0 0 0
        ∷ row 1 2 1 1 1 0 0
        ∷ row 1 2 1 2 2 1 0
        ∷ row 1 2 2 1 1 2 1
        ∷ row 1 2 1 0 1 2 1
        ∷ row 1 2 1 0 1 2 1
        ∷ row 0 1 0 0 0 1 0
        ∷ [])
    ∷ glyph 105 (
        row 0 0 0 1 0 0 0
        ∷ row 0 0 1 2 1 0 0
        ∷ row 0 0 0 1 0 0 0
        ∷ row 0 0 1 2 1 0 0
        ∷ row 0 0 1 2 1 0 0
        ∷ row 0 0 1 2 1 0 0
        ∷ row 0 1 2 2 2 1 0
        ∷ row 0 0 1 1 1 0 0
        ∷ [])
    ∷ []
