-- ===== src/Timestamp/Font/LowerJ.antt =====
-- The part of `draw_table` in src/timestamp.c with j to r.
use camkit.Base.{List, [], ◌∷◌}
use camkit.Timestamp.Font.Glyph.{DrawChar, glyph, row}

abbrev pub lower_j_to_r : List DrawChar
lower_j_to_r =
    glyph 106 (
      row 0 0 0 1 0 0 0
      ∷ row 0 0 1 2 1 0 0
      ∷ row 0 0 0 1 0 0 0
      ∷ row 0 0 1 2 1 0 0
      ∷ row 0 0 1 2 1 0 0
      ∷ row 0 1 1 2 1 0 0
      ∷ row 1 2 2 1 0 0 0
      ∷ row 0 1 1 0 0 0 0
      ∷ [])
    ∷ glyph 107 (
        row 0 1 0 0 0 0 0
        ∷ row 1 2 1 0 0 0 0
        ∷ row 1 2 1 0 1 0 0
        ∷ row 1 2 1 1 2 1 0
        ∷ row 1 2 1 2 1 0 0
        ∷ row 1 2 2 1 2 1 0
        ∷ row 1 2 1 0 1 2 1
        ∷ row 0 1 0 0 0 1 0
        ∷ [])
    ∷ glyph 108 (
        row 0 0 1 1 0 0 0
        ∷ row 0 1 2 2 1 0 0
        ∷ row 0 0 1 2 1 0 0
        ∷ row 0 0 1 2 1 0 0
        ∷ row 0 0 1 2 1 0 0
        ∷ row 0 0 1 2 1 0 0
        ∷ row 0 0 0 1 2 1 0
        ∷ row 0 0 0 0 1 0 0
        ∷ [])
    ∷ glyph 109 (
        row 0 0 0 0 0 0 0
        ∷ row 0 0 0 0 0 0 0
        ∷ row 0 1 1 0 1 0 0
        ∷ row 1 2 2 1 2 1 0
        ∷ row 1 2 1 2 1 2 1
        ∷ row 1 2 1 2 1 2 1
        ∷ row 1 2 1 2 1 2 1
        ∷ row 0 1 0 1 0 1 0
        ∷ [])
    ∷ glyph 110 (
        row 0 0 0 0 0 0 0
        ∷ row 0 0 0 0 0 0 0
        ∷ row 0 1 0 1 1 0 0
        ∷ row 1 2 1 2 2 1 0
        ∷ row 1 2 2 1 1 2 1
        ∷ row 1 2 1 0 1 2 1
        ∷ row 1 2 1 0 1 2 1
        ∷ row 0 1 0 0 0 1 0
        ∷ [])
    ∷ glyph 111 (
        row 0 0 0 0 0 0 0
        ∷ row 0 0 0 0 0 0 0
        ∷ row 0 0 1 1 1 0 0
        ∷ row 0 1 2 2 2 1 0
        ∷ row 1 2 1 1 1 2 1
        ∷ row 1 2 1 1 1 2 1
        ∷ row 0 1 2 2 2 1 0
        ∷ row 0 0 1 1 1 0 0
        ∷ [])
    ∷ glyph 112 (
        row 0 0 0 0 0 0 0
        ∷ row 0 0 0 0 0 0 0
        ∷ row 0 1 1 1 1 0 0
        ∷ row 1 2 2 2 2 1 0
        ∷ row 1 2 1 1 1 2 1
        ∷ row 1 2 2 2 2 1 0
        ∷ row 1 2 1 1 1 0 0
        ∷ row 1 2 1 0 0 0 0
        ∷ [])
    ∷ glyph 113 (
        row 0 0 0 0 0 0 0
        ∷ row 0 0 0 0 0 0 0
        ∷ row 0 0 1 1 1 1 0
        ∷ row 0 1 2 2 2 2 1
        ∷ row 1 2 1 1 1 2 1
        ∷ row 0 1 2 2 2 2 1
        ∷ row 0 0 1 1 1 2 1
        ∷ row 0 0 0 0 1 2 1
        ∷ [])
    ∷ glyph 114 (
        row 0 0 0 0 0 0 0
        ∷ row 0 0 0 0 0 0 0
        ∷ row 0 1 0 1 1 0 0
        ∷ row 1 2 1 2 2 1 0
        ∷ row 1 2 2 1 1 2 1
        ∷ row 1 2 1 0 0 1 0
        ∷ row 1 2 1 0 0 0 0
        ∷ row 0 1 0 0 0 0 0
        ∷ [])
    ∷ []
