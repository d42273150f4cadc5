-- ===== src/Timestamp/Overlay.antt =====
-- `timestamp_draw` of src/timestamp.c, for a string of one line.
use camkit.Base.{ℕ, suc, ◌+◌, ◌*◌, ◌^◌, ◌≤◌, ◌<◌, ◌≡◌, refl, ◌∙◌, none, List, ok, arith, length}
use camkit.Timestamp.Tables.{initialize_chars}
use camkit.Timestamp.Draw.{
  TmsHandle, sub32, find_newline, count_newlines, draw_lines, draw_text, draw_textn, timestamp_draw,
}
use camkit.Timestamp.Safety.{Drawn}
use camkit.Timestamp.Text.{Fits, draw_textn-Drawn}

count_newlines-line :
    (n : ℕ) (text : List ℕ) → find_newline text ≡ none → count_newlines (suc n) text ≡ ok 0
unfolding count_newlines
count_newlines-line n text line = rw (line, count_newlines) refl

draw_lines-line :
    (n startx starty width : ℕ) (text : List ℕ) (factor : ℕ) (image : List ℕ)
    → find_newline text ≡ none
    → draw_lines initialize_chars (suc n) startx starty width text factor image
      ≡ draw_textn initialize_chars image startx starty width text (length text) factor
unfolding draw_lines
draw_lines-line n startx starty width text factor image line = rw (line, draw_lines) refl

-- A text with no NEWLINE is drawn as one line, where the caller asked for it.
draw_text-line :
    (image : List ℕ) (startx starty width : ℕ) (text : List ℕ) (factor : ℕ)
    → find_newline text ≡ none
    → starty < 2 ^ 32
    → draw_text initialize_chars image startx starty width text factor
      ≡ draw_textn initialize_chars image startx starty width text (length text) factor
unfolding draw_text
draw_text-line image startx starty width text factor line small =
    let fuel : length text + 1 ≡ suc (length text) = omega arith in
    let top : sub32 starty ((factor + 1) * 9 * 0) ≡ starty = omega arith in
    rw
      (
        fuel,
        count_newlines-line (length text) text line,
        top,
        draw_lines-line (length text) startx starty width text factor image line,
      )
      refl

-- Let the string have no NEWLINE, be ASCII and fit beside the handle's `startx`, and let the rows
-- that it takes from `starty` on lie in the image. Then `timestamp_draw` returns; the image keeps
-- its length, and is unchanged above the first row of the text. Below the last row it is unchanged
-- for the small font, and but for the first pixel of the next row for the big one.
pub timestamp_draw-Drawn :
    (handle : TmsHandle) (timestamp image : List ℕ)
    → find_newline timestamp ≡ none
    → handle.starty < 2 ^ 32
    → handle.factor ≤ 1
    → Fits image handle.startx handle.starty handle.video_width timestamp
        (length timestamp)
        handle.factor
    → (image' : List ℕ) × (timestamp_draw initialize_chars timestamp handle image ≡ ok image')
      × Drawn
          (handle.starty * handle.video_width)
          ((handle.starty + 8 * (handle.factor + 1)) * handle.video_width + handle.factor)
          image
          image'
unfolding timestamp_draw
timestamp_draw-Drawn handle timestamp image line small font fits =
    let (image', ran, drawn) =
      draw_textn-Drawn image handle.startx handle.starty handle.video_width timestamp
        (length timestamp) handle.factor font fits in
    (
      image',
      draw_text-line image handle.startx handle.starty handle.video_width timestamp handle.factor
            line small
          ∙ ran,
      drawn,
    )
