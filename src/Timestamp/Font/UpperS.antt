-- ===== src/Timestamp/Font/UpperS.antt =====
-- The part of `draw_table` in src/timestamp.c with S to Z.
use camkit.Base.{List, [], ◌∷◌}
use camkit.Timestamp.Font.Glyph.{DrawChar, glyph, row}

abbrev pub upper_s_to_z : List DrawChar
upper_s_to_z =
    glyph 83 (
      row 0 0 1 1 1 1 0
      ∷ row 0 1 2 2 2 2 1
      ∷ row 1 2 1 1 1 1 0
      ∷ row 0 1 2 2 2 1 0
      ∷ row 0 0 1 1 1 2 1
      ∷ row 0 1 1 1 1 2 1
      ∷ row 1 2 2 2 2 1 0
      ∷ row 0 1 1 1 1 0 0
      ∷ [])
    ∷ glyph 84 (
        row 0 1 1 1 1 1 0
        ∷ row 1 2 2 2 2 2 1
        ∷ row 0 1 1 2 1 1 0
        ∷ row 0 0 1 2 1 0 0
        ∷ row 0 0 1 2 1 0 0
        ∷ row 0 0 1 2 1 0 0
        ∷ row 0 0 1 2 1 0 0
        ∷ row 0 0 0 1 0 0 0
        ∷ [])
    ∷ glyph 85 (
        row 0 1 0 0 0 1 0
        ∷ row 1 2 1 0 1 2 1
        ∷ row 1 2 1 0 1 2 1
        ∷ row 1 2 1 0 1 2 1
        ∷ row 1 2 1 0 1 2 1
        ∷ row 1 2 1 1 1 2 1
        ∷ row 0 1 2 2 2 2 1
        ∷ row 0 0 1 1 1 1 0
        ∷ [])
    ∷ glyph 86 (
        row 0 1 0 0 0 1 0
        ∷ row 1 2 1 0 1 2 1
        ∷ row 1 2 1 0 1 2 1
        ∷ row 1 2 1 0 1 2 1
        ∷ row 1 2 1 0 1 2 1
        ∷ row 0 1 2 1 2 1 0
        ∷ row 0 0 1 2 1 0 0
        ∷ row 0 0 0 1 0 0 0
        ∷ [])
    ∷ glyph 87 (
        row 0 1 0 0 0 1 0
        ∷ row 1 2 1 0 1 2 1
        ∷ row 1 2 1 0 1 2 1
        ∷ row 1 2 1 1 1 2 1
        ∷ row 1 2 1 2 1 2 1
        ∷ row 1 2 1 2 1 2 1
        ∷ row 0 1 2 1 2 1 0
        ∷ row 0 0 1 0 1 0 0
        ∷ [])
    ∷ glyph 88 (
        row 0 1 0 0 0 1 0
        ∷ row 1 2 1 0 1 2 1
        ∷ row 0 1 2 1 2 1 0
        ∷ row 0 0 1 2 1 0 0
        ∷ row 0 0 1 2 1 0 0
        ∷ row 0 1 2 1 2 1 0
        ∷ row 1 2 1 0 1 2 1
        ∷ row 0 1 0 0 0 1 0
        ∷ [])
    ∷ glyph 89 (
        row 0 1 0 0 0 1 0
        ∷ row 1 2 1 0 1 2 1
        ∷ row 0 1 2 1 2 1 0
        ∷ row 0 0 1 2 1 0 0
        ∷ row 0 0 1 2 1 0 0
        ∷ row 0 0 1 2 1 0 0
        ∷ row 0 0 1 2 1 0 0
        ∷ row 0 0 0 1 0 0 0
        ∷ [])
    ∷ glyph 90 (
        row 0 1 1 1 1 1 0
        ∷ row 1 2 2 2 2 2 1
        ∷ row 0 1 1 1 2 1 0
        ∷ row 0 0 1 2 1 0 0
        ∷ row 0 1 2 1 0 0 0
        ∷ row 1 2 1 1 1 1 0
        ∷ row 1 2 2 2 2 2 1
        ∷ row 0 1 1 1 1 1 0
        ∷ [])
    ∷ []
