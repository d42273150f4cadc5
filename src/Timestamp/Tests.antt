-- ===== src/Timestamp/Tests.antt =====
-- The theorems on src/timestamp.c at concrete inputs.
use camkit.Base.{ℕ, ◌≡◌, refl, some, List, [], ◌∷◌, ok, replicate, get_elem?, get_or, arith, inl}
use camkit.Timestamp.Font.{draw_table}
use camkit.Timestamp.Font.Glyph.{DrawChar, glyph, row}
use camkit.Timestamp.Tables.{BigChar, initialize_chars}
use camkit.Timestamp.Overlay.{timestamp_draw-Drawn}
use camkit.Timestamp.Draw.{TmsHandle, find_newline, timestamp_draw, draw_textn}
use camkit.Timestamp.Lookup.{initialize_chars-index_of, initialize_chars-double}
use camkit.Timestamp.Safety.{Drawn}
use camkit.Timestamp.Text.{draw_textn-Drawn}

initialize_chars-index_of_example :
    (get_elem? initialize_chars.small_char_arr_ptr 49 ≡ some 2)
    × (get_elem? initialize_chars.big_char_arr_ptr 49 ≡ some 2)
unfolding draw_table
initialize_chars-index_of_example = initialize_chars-index_of 49 (omega arith)

abbrev full_stop : DrawChar
full_stop = glyph 46 (
    row 0 0 0 0 0 0 0
    ∷ row 0 0 0 0 0 0 0
    ∷ row 0 0 0 0 0 0 0
    ∷ row 0 0 1 1 0 0 0
    ∷ row 0 1 2 2 1 0 0
    ∷ row 0 1 2 2 1 0 0
    ∷ row 0 0 1 1 0 0 0
    ∷ row 0 0 0 0 0 0 0
    ∷ [])

initialize_chars-double_example :
    (big : BigChar) × (get_elem? initialize_chars.big_table 22 ≡ some big)
    × (big.ascii ≡ 46)
    × (get_or (get_or big.pix 9 []) 5 0 ≡ 2)
unfolding draw_table
initialize_chars-double_example =
    initialize_chars-double 22 9 5 full_stop refl (omega arith) (omega arith)

-- 9 rows of 20 grey pixels.
abbrev grey : List ℕ
grey = replicate 180 7

draw_textn-Drawn_example :
    (image' : List ℕ) × (draw_textn initialize_chars grey 1 0 20 (49 ∷ 50 ∷ []) 2 0 ≡ ok image')
    × Drawn 0 160 grey image'
draw_textn-Drawn_example = draw_textn-Drawn grey 1 0 20 (49 ∷ 50 ∷ []) 2 0 (omega arith) (record {
  listed = refl;
  in_text = omega arith;
  short = omega arith;
  inside = omega arith;
  narrow = omega arith;
  wide = omega arith;
  place = inl (omega arith);
  room = omega arith;
  addressed = omega arith;
})

abbrev corner : TmsHandle
corner = record { startx = 1; starty = 0; video_width = 20; factor = 0 }

timestamp_draw-Drawn_example :
    (image' : List ℕ) × (timestamp_draw initialize_chars (49 ∷ 50 ∷ []) corner grey ≡ ok image')
    × Drawn 0 160 grey image'
unfolding find_newline
timestamp_draw-Drawn_example =
    timestamp_draw-Drawn corner (49 ∷ 50 ∷ []) grey refl (omega arith) (omega arith) (record {
      listed = refl;
      in_text = omega arith;
      short = omega arith;
      inside = omega arith;
      narrow = omega arith;
      wide = omega arith;
      place = inl (omega arith);
      room = omega arith;
      addressed = omega arith;
    })
