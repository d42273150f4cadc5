-- ===== src/Timestamp/Font/Digits.antt =====
-- The part of `draw_table` in src/timestamp.c with the space and the digits.
use camkit.Base.{List, [], ◌∷◌}
use camkit.Timestamp.Font.Glyph.{DrawChar, glyph, row}

abbrev pub space_and_digits : List DrawChar
space_and_digits =
    glyph 32 (
      row 0 0 0 0 0 0 0
      ∷ row 0 0 0 0 0 0 0
      ∷ row 0 0 0 0 0 0 0
      ∷ row 0 0 0 0 0 0 0
      ∷ row 0 0 0 0 0 0 0
      ∷ row 0 0 0 0 0 0 0
      ∷ row 0 0 0 0 0 0 0
      ∷ row 0 0 0 0 0 0 0
      ∷ [])
    ∷ glyph 48 (
        row 0 0 1 1 1 0 0
        ∷ row 0 1 2 2 2 1 0
        ∷ row 1 2 1 1 2 2 1
        ∷ row 1 2 1 2 1 2 1
        ∷ row 1 2 1 2 1 2 1
        ∷ row 1 2 2 1 1 2 1
        ∷ row 0 1 2 2 2 1 0
        ∷ row 0 0 1 1 1 0 0
        ∷ [])
    ∷ glyph 49 (
        row 0 0 0 1 0 0 0
        ∷ row 0 0 1 2 1 0 0
        ∷ row 0 1 2 2 1 0 0
        ∷ row 0 0 1 2 1 0 0
        ∷ row 0 0 1 2 1 0 0
        ∷ row 0 0 1 2 1 0 0
        ∷ row 0 1 2 2 2 1 0
        ∷ row 0 0 1 1 1 0 0
        ∷ [])
    ∷ glyph 50 (
        row 0 0 1 1 1 0 0
        ∷ row 0 1 2 2 2 1 0
        ∷ row 1 2 1 1 1 2 1
        ∷ row 0 1 1 2 2 1 0
        ∷ row 0 1 2 1 1 0 0
        ∷ row 1 2 1 1 1 1 0
        ∷ row 1 2 2 2 2 2 1
        ∷ row 0 1 1 1 1 1 0
        ∷ [])
    ∷ glyph 51 (
        row 0 0 1 1 1 0 0
        ∷ row 0 1 2 2 2 1 0
        ∷ row 1 2 1 1 1 2 1
        ∷ row 0 1 1 2 2 1 0
        ∷ row 0 1 0 1 1 2 1
        ∷ row 1 2 1 1 1 2 1
        ∷ row 0 1 2 2 2 1 0
        ∷ row 0 0 1 1 1 0 0
        ∷ [])
    ∷ glyph 52 (
        row 0 0 0 0 1 0 0
        ∷ row 0 0 0 1 2 1 0
        ∷ row 0 0 1 2 2 1 0
        ∷ row 0 1 2 1 2 1 0
        ∷ row 1 2 2 2 2 2 1
        ∷ row 0 1 1 1 2 1 0
        ∷ row 0 0 0 1 2 1 0
        ∷ row 0 0 0 0 1 0 0
        ∷ [])
    ∷ glyph 53 (
        row 0 1 1 1 1 1 0
        ∷ row 1 2 2 2 2 2 1
        ∷ row 1 2 1 1 1 1 0
        ∷ row 1 2 2 2 2 1 0
        ∷ row 0 1 1 1 1 2 0
        ∷ row 0 1 1 1 1 2 0
        ∷ row 1 2 2 2 2 1 0
        ∷ row 0 1 1 1 1 0 0
        ∷ [])
    ∷ glyph 54 (
        row 0 0 1 1 1 1 0
        ∷ row 0 1 2 2 2 2 1
        ∷ row 1 2 1 1 1 1 0
        ∷ row 1 2 2 2 2 1 0
        ∷ row 1 2 1 1 1 2 1
        ∷ row 1 2 1 1 1 2 1
        ∷ row 0 1 2 2 2 1 0
        ∷ row 0 0 1 1 1 0 0
        ∷ [])
    ∷ glyph 55 (
        row 0 1 1 1 1 1 0
        ∷ row 1 2 2 2 2 2 1
        ∷ row 0 1 1 1 1 2 1
        ∷ row 0 0 0 1 2 1 0
        ∷ row 0 0 1 2 1 0 0
        ∷ row 0 1 2 1 0 0 0
        ∷ row 0 1 2 1 0 0 0
        ∷ row 0 0 1 0 0 0 0
        ∷ [])
    ∷ glyph 56 (
        row 0 0 1 1 1 0 0
        ∷ row 0 1 2 2 2 1 0
        ∷ row 1 2 1 1 1 2 1
        ∷ row 0 1 2 2 2 1 0
        ∷ row 1 2 1 1 1 2 1
        ∷ row 1 2 1 1 1 2 1
        ∷ row 0 1 2 2 2 1 0
        ∷ row 0 0 1 1 1 0 0
        ∷ [])
    ∷ glyph 57 (
        row 0 0 1 1 1 0 0
        ∷ row 0 1 2 2 2 1 0
        ∷ row 1 2 1 1 1 2 1
        ∷ row 0 1 2 2 2 2 1
        ∷ row 0 1 1 1 1 2 1
        ∷ row 1 2 1 1 1 2 1
        ∷ row 0 1 2 2 2 1 0
        ∷ row 0 0 1 1 1 0 0
        ∷ [])
    ∷ []
