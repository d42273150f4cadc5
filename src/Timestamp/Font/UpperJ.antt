-- ===== src/Timestamp/Font/UpperJ.antt =====
-- The part of `draw_table` in src/timestamp.c with J to R.
use camkit.Base.{List, [], ◌∷◌}
use camkit.Timestamp.Font.Glyph.{DrawChar, glyph, row}

abbrev pub upper_j_to_r : List DrawChar
upper_j_to_r =
    glyph 74 (
      row 0 0 1 1 1 1 0
      ∷ row 0 1 2 2 2 2 1
      ∷ row 0 0 1 1 1 2 1
      ∷ row 0 0 0 0 1 2 1
      ∷ row 0 1 0 0 1 2 1
      ∷ row 1 2 1 1 1 2 1
      ∷ row 0 1 2 2 2 1 0
      ∷ row 0 0 1 1 1 0 0
      ∷ [])
    ∷ glyph 75 (
        row 0 1 0 0 0 1 0
        ∷ row 1 2 1 0 1 2 1
        ∷ row 1 2 1 1 2 1 0
        ∷ row 1 2 1 2 1 0 0
        ∷ row 1 2 2 2 1 0 0
        ∷ row 1 2 1 1 2 1 0
        ∷ row 1 2 1 0 1 2 1
        ∷ row 0 1 0 0 0 1 0
        ∷ [])
    ∷ glyph 76 (
        row 0 1 0 0 0 0 0
        ∷ row 1 2 1 0 0 0 0
        ∷ row 1 2 1 0 0 0 0
        ∷ row 1 2 1 0 0 0 0
        ∷ row 1 2 1 0 0 0 0
        ∷ row 1 2 1 1 1 0 0
        ∷ row 1 2 2 2 2 1 0
        ∷ row 0 1 1 1 1 0 0
        ∷ [])
    ∷ glyph 77 (
        row 0 1 1 0 1 1 0
        ∷ row 1 2 2 1 2 2 1
        ∷ row 1 2 1 2 1 2 1
        ∷ row 1 2 1 1 1 2 0
        ∷ row 1 2 1 0 1 2 1
        ∷ row 1 2 1 0 1 2 1
        ∷ row 1 2 1 0 1 2 1
        ∷ row 0 1 0 0 0 1 0
        ∷ [])
    ∷ glyph 78 (
        row 0 1 0 0 0 1 0
        ∷ row 1 2 1 0 1 2 1
        ∷ row 1 2 2 1 1 2 1
        ∷ row 1 2 1 2 1 2 1
        ∷ row 1 2 1 1 2 2 1
        ∷ row 1 2 1 0 1 2 1
        ∷ row 1 2 1 0 1 2 1
        ∷ row 0 1 0 0 0 1 0
        ∷ [])
    ∷ glyph 79 (
        row 0 0 1 1 1 0 0
        ∷ row 0 1 2 2 2 1 0
        ∷ row 1 2 1 1 1 2 1
        ∷ row 1 2 1 0 1 2 1
        ∷ row 1 2 1 0 1 2 1
        ∷ row 1 2 1 1 1 2 1
        ∷ row 0 1 2 2 2 1 0
        ∷ row 0 0 1 1 1 0 0
        ∷ [])
    ∷ glyph 80 (
        row 0 1 1 1 1 0 0
        ∷ row 1 2 2 2 2 1 0
        ∷ row 1 2 1 1 1 2 1
        ∷ row 1 2 2 2 2 1 0
        ∷ row 1 2 1 1 1 0 0
        ∷ row 1 2 1 0 0 0 0
        ∷ row 1 2 1 0 0 0 0
        ∷ row 0 1 0 0 0 0 0
        ∷ [])
    ∷ glyph 81 (
        row 0 0 1 1 1 0 0
        ∷ row 0 1 2 2 2 1 0
        ∷ row 1 2 1 1 1 2 1
        ∷ row 1 2 1 1 1 2 1
        ∷ row 1 2 1 2 1 2 1
        ∷ row 1 2 1 1 2 1 0
        ∷ row 0 1 2 2 1 2 1
        ∷ row 0 0 1 1 0 1 0
        ∷ [])
    ∷ glyph 82 (
        row 0 1 1 1 1 0 0
        ∷ row 1 2 2 2 2 1 0
        ∷ row 1 2 1 1 1 2 1
        ∷ row 1 2 2 2 2 1 0
        ∷ row 1 2 1 2 1 0 0
        ∷ row 1 2 1 1 2 1 0
        ∷ row 1 2 1 0 1 2 1
        ∷ row 0 1 0 0 0 1 0
        ∷ [])
    ∷ []
