-- ===== src/Timestamp/Font/Brackets.antt =====
-- The part of `draw_table` in src/timestamp.c with quotes, brackets and signs.
use camkit.Base.{List, [], ◌∷◌}
use camkit.Timestamp.Font.Glyph.{DrawChar, glyph, row}

abbrev pub brackets : List DrawChar
brackets =
    glyph 34 (
      row 0 0 1 0 1 0 0
      ∷ row 0 1 2 1 2 1 0
      ∷ row 0 1 2 1 2 1 0
      ∷ row 0 0 1 0 1 0 0
      ∷ row 0 0 0 0 0 0 0
      ∷ row 0 0 0 0 0 0 0
      ∷ row 0 0 0 0 0 0 0
      ∷ row 0 0 0 0 0 0 0
      ∷ [])
    ∷ glyph 47 (
        row 0 0 0 0 1 0 0
        ∷ row 0 0 0 1 2 1 0
        ∷ row 0 0 0 1 2 1 0
        ∷ row 0 0 1 2 1 0 0
        ∷ row 0 0 1 2 1 0 0
        ∷ row 0 1 2 1 0 0 0
        ∷ row 0 1 2 1 0 0 0
        ∷ row 0 0 1 0 0 0 0
        ∷ [])
    ∷ glyph 40 (
        row 0 0 0 1 0 0 0
        ∷ row 0 0 1 2 1 0 0
        ∷ row 0 1 2 1 0 0 0
        ∷ row 0 1 2 1 0 0 0
        ∷ row 0 1 2 1 0 0 0
        ∷ row 0 1 2 1 0 0 0
        ∷ row 0 0 1 2 1 0 0
        ∷ row 0 0 0 1 0 0 0
        ∷ [])
    ∷ glyph 41 (
        row 0 0 0 1 0 0 0
        ∷ row 0 0 1 2 1 0 0
        ∷ row 0 0 0 1 2 1 0
        ∷ row 0 0 0 1 2 1 0
        ∷ row 0 0 0 1 2 1 0
        ∷ row 0 0 0 1 2 1 0
        ∷ row 0 0 1 2 1 0 0
        ∷ row 0 0 0 1 0 0 0
        ∷ [])
    ∷ glyph 64 (
        row 0 0 1 1 1 0 0
        ∷ row 0 1 2 2 2 1 0
        ∷ row 1 2 1 1 1 2 1
        ∷ row 1 2 1 2 2 2 1
        ∷ row 1 2 1 2 2 2 1
        ∷ row 1 2 1 1 1 1 0
        ∷ row 0 1 2 2 2 1 0
        ∷ row 0 0 1 1 1 0 0
        ∷ [])
    ∷ glyph 126 (
        row 0 0 0 0 0 0 0
        ∷ row 0 0 0 0 0 0 0
        ∷ row 0 0 1 0 0 0 0
        ∷ row 0 1 2 1 0 1 0
        ∷ row 1 2 1 2 1 2 1
        ∷ row 0 1 0 1 2 1 0
        ∷ row 0 0 0 0 1 0 0
        ∷ row 0 0 0 0 0 0 0
        ∷ [])
    ∷ glyph 35 (
        row 0 0 1 0 1 0 0
        ∷ row 0 1 2 1 2 1 0
        ∷ row 1 2 2 2 2 2 1
        ∷ row 0 1 2 1 2 1 0
        ∷ row 0 1 2 1 2 1 0
        ∷ row 1 2 2 2 2 2 1
        ∷ row 0 1 2 1 2 1 0
        ∷ row 0 0 1 0 1 0 0
        ∷ [])
    ∷ glyph 60 (
        row 0 0 0 0 0 1 0
        ∷ row 0 0 0 1 1 2 1
        ∷ row 0 1 1 2 2 1 0
        ∷ row 1 2 2 1 1 0 0
        ∷ row 0 1 1 2 2 1 0
        ∷ row 0 0 0 1 1 2 1
        ∷ row 0 0 0 0 0 1 0
        ∷ row 0 0 0 0 0 0 0
        ∷ [])
    ∷ glyph 62 (
        row 0 1 0 0 0 0 0
        ∷ row 1 2 1 1 0 0 0
        ∷ row 0 1 2 2 1 1 0
        ∷ row 0 0 1 1 2 2 1
        ∷ row 0 1 2 2 1 1 0
        ∷ row 1 2 1 1 0 0 0
        ∷ row 0 1 0 0 0 0 0
        ∷ row 0 0 0 0 0 0 0
        ∷ [])
    ∷ []
