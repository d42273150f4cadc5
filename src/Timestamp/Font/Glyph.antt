-- ===== src/Timestamp/Font/Glyph.antt =====
-- `struct draw_char` of src/timestamp.c: a character and its picture of 8 rows of 7 pixels, where
-- 1 stands for black, 2 for white and 0 for what the image shows.
use camkit.Base.{ℕ, List, [], ◌∷◌}

pub record DrawChar : Type 0 where
  pub ascii : ℕ
  pub pix : List (List ℕ)

abbrev pub row : (a b c d e f g : ℕ) → List ℕ
row a b c d e f g = a ∷ b ∷ c ∷ d ∷ e ∷ f ∷ g ∷ []

abbrev pub glyph : ℕ → List (List ℕ) → DrawChar
glyph ascii pix = record { ascii = ascii; pix = pix }
