-- ===== src/Timestamp/Safety.antt =====
-- Where the drawing of src/timestamp.c writes: inside the image, and only where the text stands.
use camkit.Base.{
  ℕ, suc, ◌+◌, ◌-◌, ◌*◌, ◌^◌, ◌≤◌, ◌<◌, ◌≡◌, refl, ◌∙◌, Bool, true, false, List, [], ◌∷◌, Outcome,
  ok, fault, ◌==◌, ltb, if◌then◌else◌, arith, length, get_elem?, set, length-set, get_elem?-set_ne,
  Bool-cases, lt→ltb, ◌⊎◌, ◌≢◌, inl, inr,
}
use camkit.Timestamp.Draw.{draw_pixel, draw_row, draw_char, move_on, move_back}

-- `image'` differs from `image` at most from `lo` on and below `hi`.
pub record Drawn (lo hi : ℕ) (image image' : List ℕ) : Type 0 where
  pub same_length : length image' ≡ length image
  pub outside : (i : ℕ) → (i < lo) ⊎ (hi ≤ i) → get_elem? image' i ≡ get_elem? image i

pub Drawn-refl : (lo hi : ℕ) (image : List ℕ) → Drawn lo hi image image
Drawn-refl lo hi image = record { same_length = refl; outside = λ i h. refl }

pub Drawn-trans : (lo hi : ℕ) {a b c : List ℕ} → Drawn lo hi a b → Drawn lo hi b c → Drawn lo hi a c
Drawn-trans lo hi d e = record {
  same_length = e.same_length ∙ d.same_length;
  outside = λ i h. e.outside i h ∙ d.outside i h;
}

Drawn-set : (lo hi p v : ℕ) (image : List ℕ) → lo ≤ p → p < hi → Drawn lo hi image (set image p v)
Drawn-set lo hi p v image hl hh = record {
  same_length = length-set image p v;
  outside = λ i h. get_elem?-set_ne image p i v (apart i h);
}
  where
    apart : (i : ℕ) → (i < lo) ⊎ (hi ≤ i) → p ≢ i
    apart i (inl h) e = omega arith
    apart i (inr h) e = omega arith

-- A drawing that succeeds.
pub Draws : (lo hi : ℕ) (image : List ℕ) → Outcome (List ℕ) → Type 0
Draws lo hi image m = (image' : List ℕ) × (m ≡ ok image') × Drawn lo hi image image'

draw_pixel-Draws :
    (lo hi v p : ℕ) (image : List ℕ)
    → lo ≤ p
    → p < hi
    → p < length image
    → Draws lo hi image (draw_pixel v p image)
unfolding draw_pixel Draws
draw_pixel-Draws lo hi v p image hl hh hi_ok =
    go (v == 1) (v == 2) (ltb p (length image)) (lt→ltb p (length image) hi_ok)
  where
    go :
        (black white inside : Bool)
        → inside ≡ true
        → Draws lo hi image (
            if black
            then (if inside then ok (set image p 0) else fault)
            else if white
            then (if inside then ok (set image p 255) else fault)
            else ok image)
    go black white false h = cc
    go true white true h = (set image p 0, refl, Drawn-set lo hi p 0 image hl hh)
    go false true true h = (set image p 255, refl, Drawn-set lo hi p 255 image hl hh)
    go false false true h = (image, refl, Drawn-refl lo hi image)

draw_row-Draws :
    (lo hi : ℕ) (row : List ℕ) (p : ℕ) (image : List ℕ)
    → lo ≤ p
    → p + length row ≤ hi
    → p + length row ≤ length image
    → Draws lo hi image (draw_row row p image)
unfolding draw_row Draws
draw_row-Draws lo hi [] p image hl hh hi_ok = (image, refl, Drawn-refl lo hi image)
draw_row-Draws lo hi (v ∷ row) p image hl hh hi_ok =
    let (b, e, d) = draw_pixel-Draws lo hi v p image hl (omega arith) (omega arith) in
    let same = d.same_length in
    let (c, e', d') =
      draw_row-Draws lo hi row (p + 1) b (omega arith) (omega arith) (omega arith) in
    (c, rw (e, e'), Drawn-trans lo hi d d')

-- Every row of a picture has `w` pixels.
abbrev pub rows_have : (w : ℕ) → List (List ℕ) → Bool
rows_have w [] = true
rows_have w (row ∷ rows) = if length row == w then rows_have w rows else false

pub move_on-ok : (p n : ℕ) → n < 2 ^ 31 → move_on p n ≡ ok (p + n)
unfolding move_on
move_on-ok p n h = rw (lt→ltb n (2 ^ 31) h)

pub move_back-ok : (p n : ℕ) → n < 2 ^ 31 → n ≤ p → move_back p n ≡ ok (p - n)
unfolding move_back
move_back-ok p n h le =
    let inside : ltb p n ≡ false = ground arith in rw (lt→ltb n (2 ^ 31) h, inside)

rows_have_head :
    (w : ℕ) (row : List ℕ) (rows : List (List ℕ))
    → rows_have w (row ∷ rows) ≡ true
    → (length row ≡ w) × (rows_have w rows ≡ true)
rows_have_head w row rows h = elim (Bool-cases (length row == w)) [
  | inl same ↦ (ground arith, rw same at h)
  | inr other ↦ absurd (false_true (rw other at h))
]
  where
    false_true : ◌≡◌ {A = Bool} false true → ⊥
    false_true e = cc

-- The picture is drawn, and `image_ptr` has moved on by its rows.
pub draw_char-Draws :
    (lo hi w off : ℕ) (rows : List (List ℕ)) (p : ℕ) (image : List ℕ)
    → rows_have w rows ≡ true
    → off < 2 ^ 31
    → lo ≤ p
    → p + length rows * (w + off) ≤ hi + off
    → hi ≤ length image
    → (image' : List ℕ) × (draw_char rows off p image ≡ ok (image', p + length rows * (w + off)))
      × Drawn lo hi image image'
unfolding draw_char Draws
draw_char-Draws lo hi w off [] p image hw ho hl hh hi_ok =
    let e : p + 0 * (w + off) ≡ p = omega arith in (image, rw e refl, Drawn-refl lo hi image)
draw_char-Draws lo hi w off (row ∷ rows) p image hw ho hl hh hi_ok =
    let (one, rest) = rows_have_head w row rows hw in
    let split : suc (length rows) * (w + off) ≡ w + off + length rows * (w + off) = omega arith in
    let (b, e, d) = draw_row-Draws lo hi row p image hl (omega arith) (omega arith) in
    let same = d.same_length in
    let (c, e', d') =
      draw_char-Draws lo hi w off rows (p + length row + off) b rest ho (omega arith) (omega arith)
        (omega arith) in
    let next : p + length row + off + length rows * (w + off) ≡ p + suc (length rows) * (w + off) =
      omega arith in
    (c, rw (e, move_on-ok (p + length row) off ho, e', next), Drawn-trans lo hi d d')
