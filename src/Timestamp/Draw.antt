-- ===== src/Timestamp/Draw.antt =====
-- `draw_textn`, `draw_text` and the interface of src/timestamp.c. A pointer into the image is its
-- offset; `unsigned` arithmetic wraps at 2^32, and an `int` keeps the bits of its value.
use mathlib.Core.Option
use camkit.Base.{
  ℕ, zero, suc, ◌+◌, ◌-◌, ◌*◌, ◌/◌, ◌%◌, ◌^◌, Bool, true, false, Option, none, some, List, [], ◌∷◌,
  ◌&&◌, Outcome, ok, fault, out_of_fuel, expect, ◌>>=◌, ◌==◌, ltb, leb, if◌then◌else◌, length,
  get_elem?, set, take,
}
use camkit.Timestamp.Font.{draw_table}
use camkit.Timestamp.Tables.{Chars, initialize_chars}

-- Wrap-around of `unsigned int`.
abbrev pub u32 : ℕ → ℕ
u32 n = n % 2 ^ 32

abbrev pub sub32 : ℕ → ℕ → ℕ
sub32 a b = (a + 2 ^ 32 - b % 2 ^ 32) % 2 ^ 32

-- `p += n` and `p -= n` for an `int` n given by its bits; before the image there is nothing.
unfoldable pub move_on : ℕ → ℕ → Outcome ℕ
move_on p n =
    if ltb n (2 ^ 31)
    then ok (p + n)
    else if ltb p (2 ^ 32 - n)
    then fault
    else ok (p - (2 ^ 32 - n))

unfoldable pub move_back : ℕ → ℕ → Outcome ℕ
move_back p n =
    if ltb n (2 ^ 31) then (if ltb p n then fault else ok (p - n)) else ok (p + (2 ^ 32 - n))

-- The `switch` on a pixel of the picture.
unfoldable pub draw_pixel : (pixel image_ptr : ℕ) → List ℕ → Outcome (List ℕ)
draw_pixel pixel p image =
    if pixel == 1
    then (if ltb p (length image) then ok (set image p 0) else fault)
    else if pixel == 2
    then (if ltb p (length image) then ok (set image p 255) else fault)
    else ok image

-- One row of a picture.
unfoldable pub draw_row : List ℕ → (image_ptr : ℕ) → List ℕ → Outcome (List ℕ)
unfolding draw_pixel
draw_row [] p image = ok image
draw_row (pixel ∷ pixels) p image =
    draw_pixel pixel p image >>= λ image'. draw_row pixels (p + 1) image'

-- The rows of a picture: the image and `image_ptr` behind it.
unfoldable pub draw_char :
    List (List ℕ) → (line_offset image_ptr : ℕ) → List ℕ → Outcome (List ℕ × ℕ)
unfolding draw_row move_on
draw_char [] off p image = ok (image, p)
draw_char (row ∷ rows) off p image = draw_row row p image >>= λ image'.
    move_on (p + length row) off >>= λ p'. draw_char rows off p' image'

-- `char_arr_ptr[pos_check]`. An index of 127 or more, and the negative index of a byte of 128 or
-- more, lie outside the array.
unfoldable pub char_ptr : Chars → (factor pos_check : ℕ) → Outcome (List (List ℕ))
char_ptr chars factor c =
    if factor == 0
    then (do
      i ← expect (get_elem? chars.small_char_arr_ptr c)
      e ← expect (get_elem? draw_table i)
      ok e.pix)
    else do
      i ← expect (get_elem? chars.big_char_arr_ptr c)
      e ← expect (get_elem? chars.big_table i)
      ok e.pix

-- The loop over the text.
unfoldable pub draw_chars :
    Chars
    → (factor line_offset next_char_offs : ℕ) → (text : List ℕ) → (image_ptr : ℕ) → List ℕ
    → Outcome (List ℕ)
unfolding char_ptr draw_char move_back
draw_chars chars factor off next [] p image = ok image
draw_chars chars factor off next (c ∷ cs) p image = char_ptr chars factor c >>= λ pix.
    draw_char pix off p image >>= λ drawn.
    move_back drawn.1 next >>= λ p'. draw_chars chars factor off next cs p' drawn.0

-- The text to draw is the memory from `text` on, of which `len` characters are read; a negative
-- `len` reads none.
unfoldable pub clip_startx : (startx width len factor : ℕ) → ℕ
clip_startx startx width len factor =
    if ltb (width / 2) startx then sub32 startx (len * (6 * (factor + 1))) else startx

unfoldable pub clip_len : (startx width len factor : ℕ) → ℕ
clip_len startx width len factor =
    if leb width (u32 (startx + len * 6 * (factor + 1)))
    then sub32 (sub32 width startx) 1 / (6 * (factor + 1))
    else len

unfoldable pub draw_textn :
    Chars
    → List ℕ
    → (startx starty width : ℕ) → (text : List ℕ) → (len factor : ℕ) → Outcome (List ℕ)
unfolding clip_startx clip_len draw_chars
draw_textn chars image startx0 starty width text len0 factor =
    let startx = clip_startx startx0 width len0 factor in
    let len = clip_len startx width len0 factor in
    let line_offset = sub32 width (7 * (factor + 1)) in
    let next_char_offs = sub32 (u32 (width * 8 * (factor + 1))) (6 * (factor + 1)) in
    let image_ptr = startx + u32 (starty * width) in
    if ltb len (2 ^ 31)
    then (if leb len (length text)
        then draw_chars chars factor line_offset next_char_offs (take len text) image_ptr image
        else fault)
    else ok image

-- `strstr(text, NEWLINE)`, with NEWLINE a backslash and an `n`: what stands before and behind the
-- first occurrence.
unfoldable pub find_newline : List ℕ → Option (List ℕ × List ℕ)
find_newline [] = none
find_newline (c ∷ []) = none
find_newline (c ∷ d ∷ cs) =
    if (c == 92) && (d == 110)
    then some ([], cs)
    else Option.map (λ t. (c ∷ t.0, t.1)) (find_newline (d ∷ cs))

-- How often NEWLINE occurs, by the first loop of `draw_text`.
unfoldable pub count_newlines : (fuel : ℕ) → List ℕ → Outcome ℕ
unfolding find_newline
count_newlines zero text = out_of_fuel
count_newlines (suc fuel) text = elim (find_newline text) [
  | none ↦ ok 0
  | some t ↦ count_newlines fuel t.1 >>= λ n. ok (n + 1)
]

-- The second loop, and the line behind it.
unfoldable pub draw_lines :
    Chars
    → (fuel startx starty width : ℕ) → (begin : List ℕ) → (factor : ℕ) → List ℕ
    → Outcome (List ℕ)
unfolding draw_textn find_newline
draw_lines chars zero startx starty width begin factor image = out_of_fuel
draw_lines chars (suc fuel) startx starty width begin factor image = elim (find_newline begin) [
  | none ↦ draw_textn chars image startx starty width begin (length begin) factor
  | some t ↦ draw_textn chars image startx starty width begin (length t.0) factor >>= λ image'.
      draw_lines chars fuel startx (u32 (starty + (factor + 1) * 9)) width t.1 factor image'
]

-- Each turn of a loop passes two characters, so the text's length is fuel enough.
unfoldable pub draw_text :
    Chars → List ℕ → (startx starty width : ℕ) → (text : List ℕ) → (factor : ℕ) → Outcome (List ℕ)
unfolding count_newlines draw_lines
draw_text chars image startx starty width text factor = do
  let fuel = length text + 1
  num_nl ← count_newlines fuel text
  draw_lines chars fuel startx (sub32 starty ((factor + 1) * 9 * num_nl)) width text factor image

pub record TmsParam : Type 0 where
  pub startx : ℕ
  pub starty : ℕ
  pub video_width : ℕ
  pub factor : ℕ

pub record TmsHandle : Type 0 where
  pub startx : ℕ
  pub starty : ℕ
  pub video_width : ℕ
  pub factor : ℕ

-- The handle, if `malloc` succeeds, and the global tables.
unfoldable pub timestamp_open : Bool → TmsParam → Option (TmsHandle × Chars)
timestamp_open false params = none
timestamp_open true params = some (
  record {
    startx = params.startx;
    starty = params.starty;
    video_width = params.video_width;
    factor = params.factor;
  },
  initialize_chars,
)

-- `timestamp` is the string that `strftime` makes of the local time.
unfoldable pub timestamp_draw : Chars → (timestamp : List ℕ) → TmsHandle → List ℕ → Outcome (List ℕ)
unfolding draw_text
timestamp_draw chars timestamp handle image =
    draw_text chars image handle.startx handle.starty handle.video_width timestamp handle.factor
