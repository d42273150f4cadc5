-- ===== src/Timestamp/Lookup.antt =====
-- What the tables of src/timestamp.c hold after `initialize_chars`.
use mathlib.Core.Bool.{◌&&◌}
use camkit.Base.{
  ℕ, zero, suc, ◌+◌, ◌/◌, ◌<◌, ◌≡◌, refl, ap, ◌∙◌, Bool, true, false, Option, none, some, List, [],
  ◌∷◌, ◌==◌, if◌then◌else◌, arith, get_elem?, get_or, holds_below, holds_below_lem,
}
use camkit.Timestamp.Font.{draw_table}
use camkit.Timestamp.Font.Glyph.{DrawChar}
use camkit.Timestamp.Tables.{BigChar, ascii_max, double_pix, fill_big_table, initialize_chars}

-- The index of a character's entry: that of the first entry that has it, and 0, the entry of the
-- space, where none has it.
abbrev pub index_of : List DrawChar → (i c : ℕ) → ℕ
index_of [] i c = 0
index_of (e ∷ es) i c = if e.ascii == c then i else index_of es (suc i) c

-- `n` cells from index `i` on, each filled from its index.
fill_cells {ℓ} : {A : Type ℓ} → (ℕ → A) → (i n : ℕ) → List A
fill_cells cell i zero = []
fill_cells cell i (suc n) = cell i ∷ fill_cells cell (suc i) n

-- A picture of twice the size, cell by cell.
doubled : List (List ℕ) → List (List ℕ)
doubled pix = fill_cells (λ y. fill_cells (λ x. get_or (get_or pix (y / 2) []) (x / 2) 0) 0 14) 0 16

double_pix-doubled : (pix : List (List ℕ)) → double_pix pix ≡ doubled pix
unfolding double_pix doubled fill_cells
double_pix-doubled pix = refl

module _ {ℓ} {A : Type ℓ} where
  -- A cell of a table that was filled from the index.
  get_or-fill_cells :
      (cell : ℕ → A) (i n j : ℕ) (d : A) → j < n → get_or (fill_cells cell i n) j d ≡ cell (i + j)
  unfolding fill_cells
  get_or-fill_cells cell i zero j d h = absurd (omega arith)
  get_or-fill_cells cell i (suc n) zero d h = let e : i + 0 ≡ i = omega arith in rw e
  get_or-fill_cells cell i (suc n) (suc j) d h =
      let e : i + suc j ≡ suc i + j = omega arith in
      rw e (get_or-fill_cells cell (suc i) n j d (omega arith))

  get_or-fill_from_0 :
      (cell : ℕ → A) (n j : ℕ) (d : A) → j < n → get_or (fill_cells cell 0 n) j d ≡ cell j
  get_or-fill_from_0 cell n j d h =
      let e : 0 + j ≡ j = omega arith in get_or-fill_cells cell 0 n j d h ∙ ap cell e

pub get_elem?-fill_big_table :
    (table : List DrawChar) (i : ℕ) (e : DrawChar)
    → get_elem? table i ≡ some e
    → get_elem? (fill_big_table table) i ≡ some (record { ascii = e.ascii; pix = double_pix e.pix })
unfolding fill_big_table
get_elem?-fill_big_table [] i e h = cc
get_elem?-fill_big_table (c ∷ cs) zero e h = let same : c ≡ e = cc in rw same
get_elem?-fill_big_table (c ∷ cs) (suc i) e h = get_elem?-fill_big_table cs i e h

abbrev same_at : List ℕ → ℕ → ℕ → Bool
same_at ptrs c i = elim (get_elem? ptrs c) [ none ↦ false | some j ↦ j == i ]

same_at_sound : (ptrs : List ℕ) (c i : ℕ) → same_at ptrs c i ≡ true → get_elem? ptrs c ≡ some i
same_at_sound ptrs c i h = go (get_elem? ptrs c) h
  where
    go : (o : Option ℕ) → elim o [ none ↦ false | some j ↦ j == i ] ≡ true → o ≡ some i
    go none t = cc
    go (some j) t = ap (λ k. some k) (ground arith)

abbrev ptrs_test : ℕ → Bool
ptrs_test c =
    same_at initialize_chars.small_char_arr_ptr c (index_of draw_table 0 c)
    && same_at initialize_chars.big_char_arr_ptr c (index_of draw_table 0 c)

all_ptrs : holds_below ptrs_test ascii_max ≡ true
unfolding initialize_chars holds_below
all_ptrs = refl

and_true : (a b : Bool) → (a && b) ≡ true → (a ≡ true) × (b ≡ true)
and_true true b h = (refl, h)
and_true false b h = cc

-- After `initialize_chars` the pointers of every character below 127, small and big, lead to the
-- entry of the table that has the character, and to the space where none has it.
pub initialize_chars-index_of :
    (c : ℕ)
    → c < ascii_max
    → (get_elem? initialize_chars.small_char_arr_ptr c ≡ some (index_of draw_table 0 c))
      × (get_elem? initialize_chars.big_char_arr_ptr c ≡ some (index_of draw_table 0 c))
initialize_chars-index_of c h =
    let (small, big) =
      and_true (same_at initialize_chars.small_char_arr_ptr c (index_of draw_table 0 c))
        (same_at initialize_chars.big_char_arr_ptr c (index_of draw_table 0 c))
        (holds_below_lem ptrs_test ascii_max c h all_ptrs) in
    (
      same_at_sound initialize_chars.small_char_arr_ptr c (index_of draw_table 0 c) small,
      same_at_sound initialize_chars.big_char_arr_ptr c (index_of draw_table 0 c) big,
    )

-- The entry of `big_table` at the place of an entry of `draw_table` has its character, and its
-- pixel in column x < 14 of row y < 16 is that in column x / 2 of row y / 2 of the small picture.
pub initialize_chars-double :
    (i y x : ℕ) (e : DrawChar)
    → get_elem? draw_table i ≡ some e
    → y < 16
    → x < 14
    → (big : BigChar) × (get_elem? initialize_chars.big_table i ≡ some big)
      × (big.ascii ≡ e.ascii)
      × (get_or (get_or big.pix y []) x 0 ≡ get_or (get_or e.pix (y / 2) []) (x / 2) 0)
unfolding initialize_chars doubled
initialize_chars-double i y x e h hy hx = (
  record { ascii = e.ascii; pix = double_pix e.pix },
  get_elem?-fill_big_table draw_table i e h,
  refl,
  ap (λ big. get_or (get_or big y []) x 0) (double_pix-doubled e.pix)
      ∙ ap (λ row. get_or row x 0)
          (get_or-fill_from_0
            (λ y. fill_cells (λ x. get_or (get_or e.pix (y / 2) []) (x / 2) 0) 0 14) 16 y [] hy)
      ∙ get_or-fill_from_0 (λ x. get_or (get_or e.pix (y / 2) []) (x / 2) 0) 14 x 0 hx,
)
