-- ===== src/Timestamp/Font/LowerS.antt =====
-- The part of `draw_table` in src/timestamp.c with s to z.
use camkit.Base.{List, [], ◌∷◌}
use camkit.Timestamp.Font.Glyph.{DrawChar, glyph, row}

abbrev pub lower_s_to_z : List DrawChar
lower_s_to_z =
    glyph 115 (
      row 0 0 0 0 0 0 0
      ∷ row 0 0 0 0 0 0 0
      ∷ row 0 0 1 1 1 1 0
      ∷ row 0 1 2 2 2 2 1
      ∷ row 1 2 2 2 1 1 0
      ∷ row 0 1 1 2 2 2 1
      ∷ row 1 2 2 2 2 1 0
      ∷ row 0 1 1 1 1 0 0
      ∷ [])
    ∷ glyph 116 (
        row 0 0 0 1 0 0 0
        ∷ row 0 0 1 2 1 0 0
        ∷ row 0 0 1 2 1 0 0
        ∷ row 0 1 2 2 2 1 0
        ∷ row 0 0 1 2 1 0 0
        ∷ row 0 0 1 2 1 0 0
        ∷ row 0 0 0 1 2 1 0
        ∷ row 0 0 0 0 1 0 0
        ∷ [])
    ∷ glyph 117 (
        row 0 0 0 0 0 0 0
        ∷ row 0 0 0 0 0 0 0
        ∷ row 0 1 0 0 0 1 0
        ∷ row 1 2 1 0 1 2 1
        ∷ row 1 2 1 0 1 2 1
        ∷ row 1 2 1 1 2 2 1
        ∷ row 0 1 2 2 1 2 1
        ∷ row 0 0 1 1 0 1 0
        ∷ [])
    ∷ glyph 118 (
        row 0 0 0 0 0 0 0
        ∷ row 0 0 0 0 0 0 0
        ∷ row 0 1 0 0 0 1 0
        ∷ row 1 2 1 0 1 2 1
        ∷ row 1 2 1 0 1 2 1
        ∷ row 0 1 2 1 2 1 0
        ∷ row 0 0 1 2 1 0 0
        ∷ row 0 0 0 1 0 0 0
        ∷ [])
    ∷ glyph 119 (
        row 0 0 0 0 0 0 0
        ∷ row 0 0 0 0 0 0 0
        ∷ row 0 1 0 0 0 1 0
        ∷ row 1 2 1 0 1 2 1
        ∷ row 1 2 1 1 1 2 1
        ∷ row 1 2 1 2 1 2 1
        ∷ row 0 1 2 1 2 1 0
        ∷ row 0 0 1 0 1 0 0
        ∷ [])
    ∷ glyph 120 (
        row 0 0 0 0 0 0 0
        ∷ row 0 0 0 0 0 0 0
        ∷ row 0 1 0 0 1 0 0
        ∷ row 1 2 1 1 2 1 0
        ∷ row 0 1 2 2 1 0 0
        ∷ row 0 1 2 2 1 0 0
        ∷ row 1 2 1 1 2 1 0
        ∷ row 0 1 0 0 1 0 0
        ∷ [])
    ∷ glyph 121 (
        row 0 0 0 0 0 0 0
        ∷ row 0 0 0 0 0 0 0
        ∷ row 0 1 0 0 0 1 0
        ∷ row 1 2 1 0 1 2 1
        ∷ row 0 1 2 1 2 1 0
        ∷ row 0 0 1 2 1 0 0
        ∷ row 0 1 2 1 0 0 0
        ∷ row 1 2 1 0 0 0 0
        ∷ [])
    ∷ glyph 122 (
        row 0 0 0 0 0 0 0
        ∷ row 0 0 0 0 0 0 0
        ∷ row 0 1 1 1 1 0 0
        ∷ row 1 2 2 2 2 1 0
        ∷ row 0 1 1 2 1 0 0
        ∷ row 0 1 2 1 1 0 0
        ∷ row 1 2 2 2 2 1 0
        ∷ row 0 1 1 1 1 0 0
        ∷ [])
    ∷ []
