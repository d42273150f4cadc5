-- ===== src/Timestamp/Font/Stops.antt =====
-- The part of `draw_table` in src/timestamp.c with stops and strokes.
use camkit.Base.{List, [], ◌∷◌}
use camkit.Timestamp.Font.Glyph.{DrawChar, glyph, row}

abbrev pub stops : List DrawChar
stops =
    glyph 124 (
      row 0 0 0 1 0 0 0
      ∷ row 0 0 1 2 1 0 0
      ∷ row 0 0 1 2 1 0 0
      ∷ row 0 0 1 2 1 0 0
      ∷ row 0 0 1 2 1 0 0
      ∷ row 0 0 1 2 1 0 0
      ∷ row 0 0 1 2 1 0 0
      ∷ row 0 0 0 1 0 0 0
      ∷ [])
    ∷ glyph 44 (
        row 0 0 0 0 0 0 0
        ∷ row 0 0 0 0 0 0 0
        ∷ row 0 0 0 0 0 0 0
        ∷ row 0 0 1 1 0 0 0
        ∷ row 0 1 2 2 1 0 0
        ∷ row 0 1 2 2 1 0 0
        ∷ row 0 1 2 1 0 0 0
        ∷ row 0 0 1 0 0 0 0
        ∷ [])
    ∷ glyph 46 (
        row 0 0 0 0 0 0 0
        ∷ row 0 0 0 0 0 0 0
        ∷ row 0 0 0 0 0 0 0
        ∷ row 0 0 1 1 0 0 0
        ∷ row 0 1 2 2 1 0 0
        ∷ row 0 1 2 2 1 0 0
        ∷ row 0 0 1 1 0 0 0
        ∷ row 0 0 0 0 0 0 0
        ∷ [])
    ∷ glyph 58 (
        row 0 0 1 1 0 0 0
        ∷ row 0 1 2 2 1 0 0
        ∷ row 0 1 2 2 1 0 0
        ∷ row 0 0 1 1 0 0 0
        ∷ row 0 0 1 1 0 0 0
        ∷ row 0 1 2 2 1 0 0
        ∷ row 0 1 2 2 1 0 0
        ∷ row 0 0 1 1 0 0 0
        ∷ [])
    ∷ glyph 45 (
        row 0 0 0 0 0 0 0
        ∷ row 0 0 0 0 0 0 0
        ∷ row 0 0 1 1 1 0 0
        ∷ row 0 1 2 2 2 1 0
        ∷ row 0 0 1 1 1 0 0
        ∷ row 0 0 0 0 0 0 0
        ∷ row 0 0 0 0 0 0 0
        ∷ row 0 0 0 0 0 0 0
        ∷ [])
    ∷ glyph 43 (
        row 0 0 0 0 0 0 0
        ∷ row 0 0 0 1 0 0 0
        ∷ row 0 0 1 2 1 0 0
        ∷ row 0 1 2 2 2 1 0
        ∷ row 0 0 1 2 1 0 0
        ∷ row 0 0 0 1 0 0 0
        ∷ row 0 0 0 0 0 0 0
        ∷ row 0 0 0 0 0 0 0
        ∷ [])
    ∷ glyph 95 (
        row 0 0 0 0 0 0 0
        ∷ row 0 0 0 0 0 0 0
        ∷ row 0 0 0 0 0 0 0
        ∷ row 0 0 0 0 0 0 0
        ∷ row 0 0 0 0 0 0 0
        ∷ row 0 1 1 1 1 1 0
        ∷ row 1 2 2 2 2 2 1
        ∷ row 0 1 1 1 1 1 0
        ∷ [])
    ∷ glyph 39 (
        row 0 0 0 1 0 0 0
        ∷ row 0 0 1 2 1 0 0
        ∷ row 0 0 1 2 1 0 0
        ∷ row 0 0 0 1 0 0 0
        ∷ row 0 0 0 0 0 0 0
        ∷ row 0 0 0 0 0 0 0
        ∷ row 0 0 0 0 0 0 0
        ∷ row 0 0 0 0 0 0 0
        ∷ [])
    ∷ []
