-- ===== src/Timestamp/Tables.antt =====
-- The globals of src/timestamp.c that `initialize_chars` fills. A pointer to the picture of an entry
-- of `draw_table` or `big_table` is the entry's index.
use camkit.Base.{ℕ, zero, suc, ◌/◌, List, [], ◌∷◌, get_or, replicate, set}
use camkit.Timestamp.Font.{draw_table}
use camkit.Timestamp.Font.Glyph.{DrawChar}

abbrev pub ascii_max : ℕ
ascii_max = 127

-- `struct big_char`: a picture of 16 rows of 14 pixels.
pub record BigChar : Type 0 where
  pub ascii : ℕ
  pub pix : List (List ℕ)

pub record Chars : Type 0 where
  pub big_table : List BigChar
  pub small_char_arr_ptr : List ℕ
  pub big_char_arr_ptr : List ℕ

-- `big[y][x] = value`
abbrev pub write_pix : List (List ℕ) → (y x value : ℕ) → List (List ℕ)
write_pix big y x value = set big y (set (get_or big y []) x value)

-- The inner loop, over `n` rows from `y` on, in column `x`.
unfoldable pub double_column : List (List ℕ) → (x y n : ℕ) → List (List ℕ) → List (List ℕ)
double_column pix x y zero big = big
double_column pix x y (suc n) big =
    double_column pix x (suc y) n (write_pix big y x (get_or (get_or pix (y / 2) []) (x / 2) 0))

-- The outer loop, over `n` columns from `x` on.
unfoldable pub double_columns : List (List ℕ) → (x n : ℕ) → List (List ℕ) → List (List ℕ)
unfolding double_column
double_columns pix x zero big = big
double_columns pix x (suc n) big = double_columns pix (suc x) n (double_column pix x 0 16 big)

-- The loops on one entry of `big_table`, a global, which holds zeros before.
unfoldable pub double_pix : List (List ℕ) → List (List ℕ)
unfolding double_columns
double_pix pix = double_columns pix 0 14 (replicate 16 (replicate 14 0))

unfoldable pub fill_big_table : List DrawChar → List BigChar
unfolding double_pix
fill_big_table [] = []
fill_big_table (c ∷ cs) = record { ascii = c.ascii; pix = double_pix c.pix } ∷ fill_big_table cs

-- The loop that lets the entry of each character of the table point to its picture.
unfoldable pub build_ptrs : List DrawChar → (i : ℕ) → List ℕ → List ℕ
build_ptrs [] i ptrs = ptrs
build_ptrs (c ∷ cs) i ptrs = build_ptrs cs (suc i) (set ptrs c.ascii i)

unfoldable pub initialize_chars : Chars
unfolding draw_table fill_big_table build_ptrs
initialize_chars = record {
  big_table = fill_big_table draw_table;
  small_char_arr_ptr = build_ptrs draw_table 0 (replicate ascii_max 0);
  big_char_arr_ptr = build_ptrs draw_table 0 (replicate ascii_max 0);
}
