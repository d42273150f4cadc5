-- ===== src/Timestamp/Text.antt =====
-- The drawing of a text by `draw_textn` of src/timestamp.c stays inside the image.
use camkit.Base.{
  ℕ, zero, suc, ◌+◌, ◌-◌, ◌*◌, ◌/◌, ◌^◌, ◌≤◌, ◌<◌, ◌≡◌, refl, ap, ◌∙◌, Bool, true, false, List, [],
  ◌∷◌, Outcome, ok, fault, aborted, out_of_fuel, ◌==◌, ltb, leb, if◌then◌else◌, arith, length, take,
  length-take, Bool-cases, lt→ltb, le→leb, ◌⊎◌, inl, inr, holds_below, holds_below_lem,
}
use camkit.Timestamp.Tables.{ascii_max, initialize_chars}
use camkit.Timestamp.Draw.{u32, sub32, char_ptr, draw_chars, draw_textn, clip_startx, clip_len}
use camkit.Timestamp.Safety.{
  Drawn, Drawn-refl, Drawn-trans, draw_char-Draws, rows_have, move_back-ok,
}

-- A picture of `n` rows of `w` pixels.
abbrev has_shape : (w n : ℕ) → Outcome (List (List ℕ)) → Bool
has_shape w n (ok pix) = if length pix == n then rows_have w pix else false
has_shape w n _ = false

has_shape_sound :
    (w n : ℕ) (m : Outcome (List (List ℕ)))
    → has_shape w n m ≡ true
    → (pix : List (List ℕ)) × (m ≡ ok pix) × (length pix ≡ n) × (rows_have w pix ≡ true)
has_shape_sound w n (ok pix) h = elim (Bool-cases (length pix == n)) [
  | inl same ↦ (pix, refl, ground arith, rw same at h)
  | inr other ↦ absurd (false_true (rw other at h))
]
  where
    false_true : ◌≡◌ {A = Bool} false true → ⊥
    false_true e = cc
has_shape_sound w n aborted h = cc
has_shape_sound w n fault h = cc
has_shape_sound w n out_of_fuel h = cc

-- The characters of a text have entries in the pointer tables.
abbrev pub is_ascii : List ℕ → Bool
is_ascii [] = true
is_ascii (c ∷ cs) = if ltb c ascii_max then is_ascii cs else false

shapes_small : holds_below (λ c. has_shape 7 8 (char_ptr initialize_chars 0 c)) ascii_max ≡ true
unfolding initialize_chars holds_below char_ptr
shapes_small = refl

shapes_big : holds_below (λ c. has_shape 14 16 (char_ptr initialize_chars 1 c)) ascii_max ≡ true
unfolding initialize_chars holds_below char_ptr
shapes_big = refl

-- A factor with the size of its pictures.
record Font (factor w n : ℕ) : Type 0 where
  pictures :
      (c : ℕ)
      → c < ascii_max
      → (pix : List (List ℕ)) × (char_ptr initialize_chars factor c ≡ ok pix)
        × (length pix ≡ n)
        × (rows_have w pix ≡ true)

small : Font 0 7 8
small = record {
  pictures = λ c h. has_shape_sound 7 8 (char_ptr initialize_chars 0 c) (
      holds_below_lem (λ c. has_shape 7 8 (char_ptr initialize_chars 0 c)) ascii_max c h
        shapes_small);
}

big : Font 1 14 16
big = record {
  pictures = λ c h. has_shape_sound 14 16 (char_ptr initialize_chars 1 c) (
      holds_below_lem (λ c. has_shape 14 16 (char_ptr initialize_chars 1 c)) ascii_max c h
        shapes_big);
}

module _ (factor w n : ℕ) (font : Font factor w n) (lo hi off step next : ℕ) where
  draw_chars-Drawn :
      (text : List ℕ) (p : ℕ) (image : List ℕ)
      → is_ascii text ≡ true
      → off < 2 ^ 31
      → next < 2 ^ 31
      → next + step ≡ n * (w + off)
      → lo ≤ p
      → p + length text * step + n * (w + off) ≤ hi + off + step
      → hi ≤ length image
      → (image' : List ℕ) × (draw_chars initialize_chars factor off next text p image ≡ ok image')
        × Drawn lo hi image image'
  unfolding draw_chars
  draw_chars-Drawn [] p image ht ho hn es hl hh hi_ok = (image, refl, Drawn-refl lo hi image)
  draw_chars-Drawn (c ∷ cs) p image ht ho hn es hl hh hi_ok = elim (Bool-cases (ltb c ascii_max)) [
    | inl listed ↦
        let rest : is_ascii cs ≡ true = rw listed at ht in
        let (pix, found, len, shape) = font.pictures c (ground arith) in
        let more : suc (length cs) * step ≡ step + length cs * step = omega arith in
        let rows : length pix * (w + off) ≡ n * (w + off) = ap (λ m. m * (w + off)) len in
        let (b, e, d) = draw_char-Draws lo hi w off pix p image shape ho hl (omega arith) hi_ok in
        let same = d.same_length in
        let back = move_back-ok (p + length pix * (w + off)) next hn (omega arith) in
        let (g, e', d') =
          draw_chars-Drawn cs (p + length pix * (w + off) - next) b rest ho hn es (omega arith)
            (omega arith) (omega arith) in
        (g, rw (found, e, back, e'), Drawn-trans lo hi d d')
    | inr other ↦ absurd (false_true (rw other at ht))
  ]
    where
      false_true : ◌≡◌ {A = Bool} false true → ⊥
      false_true e = cc

-- Where the text starts, and how many of its characters are drawn.
clip_startx_lem :
    (startx width len factor : ℕ)
    → factor ≤ 1
    → startx < width
    → width < 2 ^ 24
    → (startx ≤ width / 2) ⊎ (len * (6 * (factor + 1)) ≤ startx)
    → clip_startx startx width len factor ≤ startx
unfolding clip_startx
clip_startx_lem startx width len factor h hs hw place = elim (Bool-cases (ltb (width / 2) startx)) [
  | inl right ↦ rw right (shifted place (ground arith))
  | inr left ↦ rw left (omega arith)
]
  where
    shifted :
        (startx ≤ width / 2) ⊎ (len * (6 * (factor + 1)) ≤ startx)
        → width / 2 < startx
        → sub32 startx (len * (6 * (factor + 1))) ≤ startx
    shifted (inl t) r = absurd (omega arith)
    shifted (inr t) r = omega arith

clip_len_small :
    (startx width len : ℕ)
    → startx < width
    → width < 2 ^ 24
    → len < 2 ^ 20
    → (clip_len startx width len 0 ≤ len) × (startx + clip_len startx width len 0 * 6 < width)
unfolding clip_len
clip_len_small startx width len hs hw hl =
    elim (Bool-cases (leb width (u32 (startx + len * 6 * 1)))) [
      | inl long ↦
          let t : width ≤ u32 (startx + len * 6 * 1) = ground arith in
          let cut : sub32 (sub32 width startx) 1 ≡ width - startx - 1 = omega arith in
          rw (long, cut) (omega arith, omega arith)
      | inr short ↦
          let t : u32 (startx + len * 6 * 1) < width = ground arith in
          rw short (omega arith, omega arith)
    ]

clip_len_big :
    (startx width len : ℕ)
    → startx < width
    → width < 2 ^ 24
    → len < 2 ^ 20
    → (clip_len startx width len 1 ≤ len) × (startx + clip_len startx width len 1 * 12 < width)
unfolding clip_len
clip_len_big startx width len hs hw hl =
    elim (Bool-cases (leb width (u32 (startx + len * 6 * 2)))) [
      | inl long ↦
          let t : width ≤ u32 (startx + len * 6 * 2) = ground arith in
          let cut : sub32 (sub32 width startx) 1 ≡ width - startx - 1 = omega arith in
          rw (long, cut) (omega arith, omega arith)
      | inr short ↦
          let t : u32 (startx + len * 6 * 2) < width = ground arith in
          rw short (omega arith, omega arith)
    ]

is_ascii-take : (m : ℕ) (text : List ℕ) → is_ascii text ≡ true → is_ascii (take m text) ≡ true
is_ascii-take zero text h = refl
is_ascii-take (suc m) [] h = refl
is_ascii-take (suc m) (c ∷ cs) h = elim (Bool-cases (ltb c ascii_max)) [
  | inl listed ↦ rw listed (is_ascii-take m cs (rw listed at h))
  | inr other ↦ absurd (false_true (rw other at h))
]
  where
    false_true : ◌≡◌ {A = Bool} false true → ⊥
    false_true e = cc

-- What the caller of `draw_textn` sees to.
pub record Fits (image : List ℕ) (startx starty width : ℕ) (text : List ℕ) (len factor : ℕ)
    : Type 0 where
  pub listed : is_ascii text ≡ true
  pub in_text : len ≤ length text
  pub short : len < 2 ^ 20
  pub inside : startx < width
  pub narrow : width < 2 ^ 24
  pub wide : 7 * (factor + 1) ≤ width
  pub place : (startx ≤ width / 2) ⊎ (len * (6 * (factor + 1)) ≤ startx)
  pub room : (starty + 8 * (factor + 1)) * width + factor ≤ length image
  pub addressed : length image < 2 ^ 32

-- The arithmetic of `draw_textn` where nothing wraps.
draw_textn-draw_chars :
    (image : List ℕ) (startx starty width : ℕ) (text : List ℕ) (len factor x m off next : ℕ)
    → clip_startx startx width len factor ≡ x
    → clip_len x width len factor ≡ m
    → m < 2 ^ 31
    → m ≤ length text
    → sub32 width (7 * (factor + 1)) ≡ off
    → sub32 (u32 (width * 8 * (factor + 1))) (6 * (factor + 1)) ≡ next
    → starty * width < 2 ^ 32
    → draw_textn initialize_chars image startx starty width text len factor
      ≡ draw_chars initialize_chars factor off next (take m text) (x + starty * width) image
unfolding draw_textn
draw_textn-draw_chars image startx starty width text len factor x m off next ex em few enough eo en
      eb =
    let base : u32 (starty * width) ≡ starty * width = omega arith in
    rw (ex, em, lt→ltb m (2 ^ 31) few, le→leb m (length text) enough, eo, en, base)

module _ (image : List ℕ) (startx starty width : ℕ) (text : List ℕ) (len : ℕ) where
  draw_textn-small :
      Fits image startx starty width text len 0
      → (image' : List ℕ) × (draw_textn initialize_chars image startx starty width text len 0
          ≡ ok image')
        × Drawn (starty * width) ((starty + 8 * (0 + 1)) * width + 0) image image'
  draw_textn-small f =
      let left = clip_startx_lem startx width len 0 (omega arith) f.inside f.narrow f.place in
      let x = clip_startx startx width len 0 in
      let m = clip_len x width len 0 in
      let (le, right) = clip_len_small x width len (omega arith) f.narrow f.short in
      let rows : (starty + 8 * (0 + 1)) * width ≡ starty * width + 8 * width = omega arith in
      let room : starty * width + 8 * width + 0 ≤ length image = omega arith in
      let wide : 7 ≤ width = f.wide in
      let plain =
        draw_textn-draw_chars image startx starty width text len 0 x m (width - 7) (width * 8 - 6)
          refl refl (omega arith) (omega arith) (omega arith) (omega arith) (omega arith) in
      let drawn : length (take m text) ≡ m = omega (arith, length-take m text) in
      let (image', e, d) =
        draw_chars-Drawn 0 7 8 small (starty * width) ((starty + 8 * (0 + 1)) * width + 0)
          (width - 7) 6 (width * 8 - 6) (take m text) (x + starty * width) image
          (is_ascii-take m text f.listed) (omega arith) (omega arith) (omega arith) (omega arith)
          (omega arith) (omega arith) in
      (image', plain ∙ e, d)

  draw_textn-big :
      Fits image startx starty width text len 1
      → (image' : List ℕ) × (draw_textn initialize_chars image startx starty width text len 1
          ≡ ok image')
        × Drawn (starty * width) ((starty + 8 * (1 + 1)) * width + 1) image image'
  draw_textn-big f =
      let left = clip_startx_lem startx width len 1 (omega arith) f.inside f.narrow f.place in
      let x = clip_startx startx width len 1 in
      let m = clip_len x width len 1 in
      let (le, right) = clip_len_big x width len (omega arith) f.narrow f.short in
      let rows : (starty + 8 * (1 + 1)) * width ≡ starty * width + 16 * width = omega arith in
      let room : starty * width + 16 * width + 1 ≤ length image = omega arith in
      let wide : 14 ≤ width = f.wide in
      let plain =
        draw_textn-draw_chars image startx starty width text len 1 x m (width - 14)
          (width * 16 - 12) refl refl (omega arith) (omega arith) (omega arith) (omega arith)
          (omega arith) in
      let drawn : length (take m text) ≡ m = omega (arith, length-take m text) in
      let (image', e, d) =
        draw_chars-Drawn 1 14 16 big (starty * width) ((starty + 8 * (1 + 1)) * width + 1)
          (width - 14) 12 (width * 16 - 12) (take m text) (x + starty * width) image
          (is_ascii-take m text f.listed) (omega arith) (omega arith) (omega arith) (omega arith)
          (omega arith) (omega arith) in
      (image', plain ∙ e, d)

  -- Let the text be ASCII and fit beside `startx` (from `startx` to the right when `startx` is in
  -- the left half, to its left otherwise), and let the rows that it takes lie in the image, with
  -- `factor` further pixels. Then `draw_textn` returns, for the small and for the big font; the
  -- image keeps its length, and is unchanged above the first row of the text. Below the last row it
  -- is unchanged for the small font, and but for the first pixel of the next row for the big one.
  pub draw_textn-Drawn :
      (factor : ℕ)
      → factor ≤ 1
      → Fits image startx starty width text len factor
      → (image' : List ℕ) × (draw_textn initialize_chars image startx starty width text len factor
          ≡ ok image')
        × Drawn (starty * width) ((starty + 8 * (factor + 1)) * width + factor) image image'
  draw_textn-Drawn zero h f = draw_textn-small f
  draw_textn-Drawn (suc zero) h f = draw_textn-big f
  draw_textn-Drawn (suc (suc k)) h f = absurd (omega arith)
