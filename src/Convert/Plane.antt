-- ===== src/Convert/Plane.antt =====
-- The whole picture, by the outer loop of `yuv422_to_yuv420` in src/soft_convert.c.
use camkit.Base.{
  ℕ, zero, suc, ◌+◌, ◌*◌, ◌/◌, ◌≤◌, ◌<◌, ◌≡◌, refl, ap, ◌∙◌, true, false, List, ok, ltb, arith,
  length, get_or, ◌⊎◌, inl, inr,
}
use camkit.Convert.{Scan, convert_rows}
use camkit.Convert.Group.{Room}
use camkit.Convert.Row.{Wrote, convert_lines-Wrote}

-- `r` pairs of lines from line `i` on have been written over `a`, with the chroma from `u` and `v`
-- on: the picture is `w` groups wide.
pub record Painted (inbuf a : List ℕ) (w i u v r : ℕ) (b : List ℕ) : Type 0 where
  pub size : length b ≡ length a
  pub luma :
      (p x : ℕ)
      → p < 2 * r
      → x < 2 * w
      → get_or b (2 * w * (i + p) + x) 0 ≡ get_or inbuf ((i + p) * (2 * w) * 2 + 2 * x) 0
  pub chroma_u :
      (p x : ℕ)
      → p < r
      → x < w
      → get_or b (u + p * w + x) 0
        ≡ (get_or inbuf ((i + 2 * p) * (2 * w) * 2 + 4 * x + 1) 0
            + get_or inbuf ((i + 2 * p + 1) * (2 * w) * 2 + 4 * x + 1) 0)
          / 2
  pub chroma_v :
      (p x : ℕ)
      → p < r
      → x < w
      → get_or b (v + p * w + x) 0
        ≡ (get_or inbuf ((i + 2 * p) * (2 * w) * 2 + 4 * x + 3) 0
            + get_or inbuf ((i + 2 * p + 1) * (2 * w) * 2 + 4 * x + 3) 0)
          / 2
  pub others :
      (j : ℕ)
      → (j < 2 * w * i)
        ⊎ ((2 * w * (i + 2 * r) ≤ j) × (j < u))
        ⊎ ((u + r * w ≤ j) × (j < v))
        ⊎ (v + r * w ≤ j)
      → get_or b j 0 ≡ get_or a j 0

-- The variables of the inner loop at line `i`.
abbrev start : (w i u v : ℕ) → List ℕ → Scan
start w i u v a = record {
  outbuf = a;
  line1 = i * (2 * w) * 2;
  line2 = (i + 1) * (2 * w) * 2;
  m = 2 * w * i;
  n = 2 * w * (i + 1);
  u = u;
  v = v;
}

cell_at : {i j : ℕ} (xs : List ℕ) → i ≡ j → get_or xs i 0 ≡ get_or xs j 0
cell_at xs e = ap (λ i. get_or xs i 0) e

-- One pair of lines, and then `r` more.
Painted-Wrote :
    (inbuf a b c : List ℕ) (w i u v r : ℕ)
    → 2 * w * (i + 2 * suc r) ≤ u
    → u + suc r * w ≤ v
    → Wrote inbuf (start w i u v a) w b
    → Painted inbuf b w (i + 2) (u + w) (v + w) r c
    → Painted inbuf a w i u v (suc r) c
Painted-Wrote inbuf a b c w i u v r hu hv one rest = record {
  size = rest.size ∙ one.size;
  luma = luma;
  chroma_u = chroma_u;
  chroma_v = chroma_v;
  others = others;
}
  where
    lines : 2 * w * (i + 2 * suc r) ≡ 2 * w * i + 4 * w + 4 * (w * r)
    lines = omega arith

    pairs : suc r * w ≡ w + r * w
    pairs = omega arith

    next : 2 * w * (i + 1) ≡ 2 * w * i + 2 * w
    next = omega arith

    after : 2 * w * (i + 2) ≡ 2 * w * i + 4 * w
    after = omega arith

    luma :
        (p x : ℕ)
        → p < 2 * suc r
        → x < 2 * w
        → get_or c (2 * w * (i + p) + x) 0 ≡ get_or inbuf ((i + p) * (2 * w) * 2 + 2 * x) 0
    luma zero x hp hx =
        let e : 2 * w * (i + 0) + x ≡ 2 * w * i + x = omega arith in
        let f : i * (2 * w) * 2 + 2 * x ≡ (i + 0) * (2 * w) * 2 + 2 * x = omega arith in
        cell_at c e
        ∙ rest.others (2 * w * i + x) (inl (omega (arith, after)))
        ∙ one.luma1 x hx
        ∙ cell_at inbuf f
    luma (suc zero) x hp hx =
        rest.others (2 * w * (i + 1) + x) (inl (omega (arith, after, next))) ∙ one.luma2 x hx
    luma (suc (suc p)) x hp hx =
        let e : i + 2 + p ≡ i + suc (suc p) = omega arith in
        rw e at (rest.luma p x (omega arith) hx)

    chroma_u :
        (p x : ℕ)
        → p < suc r
        → x < w
        → get_or c (u + p * w + x) 0
          ≡ (get_or inbuf ((i + 2 * p) * (2 * w) * 2 + 4 * x + 1) 0
              + get_or inbuf ((i + 2 * p + 1) * (2 * w) * 2 + 4 * x + 1) 0)
            / 2
    chroma_u zero x hp hx =
        let e : u + 0 * w + x ≡ u + x = omega arith in
        let f : i + 2 * 0 ≡ i = omega arith in
        cell_at c e
        ∙ rest.others (u + x) (inr (inl (omega (arith, after, lines), omega arith)))
        ∙ rw f (one.chroma_u x hx)
    chroma_u (suc p) x hp hx =
        let e : u + suc p * w + x ≡ u + w + p * w + x = omega arith in
        let f : i + 2 + 2 * p ≡ i + 2 * suc p = omega arith in
        cell_at c e ∙ (rw f at (rest.chroma_u p x (omega arith) hx))

    chroma_v :
        (p x : ℕ)
        → p < suc r
        → x < w
        → get_or c (v + p * w + x) 0
          ≡ (get_or inbuf ((i + 2 * p) * (2 * w) * 2 + 4 * x + 3) 0
              + get_or inbuf ((i + 2 * p + 1) * (2 * w) * 2 + 4 * x + 3) 0)
            / 2
    chroma_v zero x hp hx =
        let e : v + 0 * w + x ≡ v + x = omega arith in
        let f : i + 2 * 0 ≡ i = omega arith in
        cell_at c e
        ∙ rest.others (v + x) (inr (inr (inl (omega (arith, pairs), omega arith))))
        ∙ rw f (one.chroma_v x hx)
    chroma_v (suc p) x hp hx =
        let e : v + suc p * w + x ≡ v + w + p * w + x = omega arith in
        let f : i + 2 + 2 * p ≡ i + 2 * suc p = omega arith in
        cell_at c e ∙ (rw f at (rest.chroma_v p x (omega arith) hx))

    others :
        (j : ℕ)
        → (j < 2 * w * i)
          ⊎ ((2 * w * (i + 2 * suc r) ≤ j) × (j < u))
          ⊎ ((u + suc r * w ≤ j) × (j < v))
          ⊎ (v + suc r * w ≤ j)
        → get_or c j 0 ≡ get_or a j 0
    others j (inl h) = rest.others j (inl (omega (arith, after))) ∙ one.others j (inl h)
    others j (inr (inl (g, h))) =
        let e : 2 * w * (i + 2 + 2 * r) ≡ 2 * w * (i + 2 * suc r) = omega arith in
        rest.others j (inr (inl (omega (arith, e), omega arith)))
        ∙ one.others j (inr (inr (inl (omega (arith, next, lines), h))))
    others j (inr (inr (inl (g, h)))) =
        rest.others j (inr (inr (inl (omega (arith, pairs), omega arith))))
        ∙ one.others j (inr (inr (inr (inl (omega (arith, pairs), h)))))
    others j (inr (inr (inr h))) =
        rest.others j (inr (inr (inr (omega (arith, pairs)))))
        ∙ one.others j (inr (inr (inr (inr (omega (arith, pairs))))))

Painted-none : (inbuf a : List ℕ) (w i u v : ℕ) → Painted inbuf a w i u v 0 a
Painted-none inbuf a w i u v = record {
  size = refl;
  luma = λ p x hp hx. absurd (omega arith);
  chroma_u = λ p x hp hx. absurd (omega arith);
  chroma_v = λ p x hp hx. absurd (omega arith);
  others = λ j h. refl;
}

pub convert_rows-Painted :
    (inbuf a : List ℕ) (w height fuel i u v r : ℕ)
    → i + 2 * r ≡ height
    → r < fuel
    → height * (2 * w) * 2 ≤ length inbuf
    → 2 * w * height ≤ u
    → u + r * w ≤ v
    → v + r * w ≤ length a
    → (c : List ℕ) × (convert_rows inbuf (2 * w) height fuel i i u v a ≡ ok c)
      × Painted inbuf a w i u v r c
unfolding convert_rows
convert_rows-Painted inbuf a w height zero i u v r hr hf hi hu hv he = absurd (omega arith)
convert_rows-Painted inbuf a w height (suc fuel) i u v zero hr hf hi hu hv he =
    let stop : ltb i height ≡ false = ground arith in
    (a, rw stop refl, Painted-none inbuf a w i u v)
convert_rows-Painted inbuf a w height (suc fuel) i u v (suc r) hr hf hi hu hv he =
    let go_on : ltb i height ≡ true = ground arith in
    let hu' : 2 * w * (i + 2 * suc r) ≤ u = rw hr hu in
    let hi' : (i + 2 * suc r) * (2 * w) * 2 ≤ length inbuf = rw hr hi in
    let lines : (i + 2 * suc r) * (2 * w) * 2 ≡ i * (2 * w) * 2 + 8 * w + 8 * (w * r) =
      omega arith in
    let second : (i + 1) * (2 * w) * 2 ≡ i * (2 * w) * 2 + 4 * w = omega arith in
    let rows : 2 * w * (i + 2 * suc r) ≡ 2 * w * i + 4 * w + 4 * (w * r) = omega arith in
    let next : 2 * w * (i + 1) ≡ 2 * w * i + 2 * w = omega arith in
    let pairs : suc r * w ≡ w + r * w = omega arith in
    let room : Room (length inbuf) (length a) w (start w i u v a) = record {
      first_line = omega arith;
      second_line = omega arith;
      luma = omega arith;
      chroma = omega arith;
      planes = omega arith;
      end = omega arith;
    } in
    let (b, ran, one) =
      convert_lines-Wrote inbuf (2 * w) (2 * w + 1) 0 w (start w i u v a) (omega arith)
        (omega arith) room in
    let len : length b ≡ length a = one.size in
    let (c, rest, painted) =
      convert_rows-Painted inbuf b w height fuel (i + 2) (u + w) (v + w) r (omega arith)
        (omega arith) hi (omega arith) (omega arith) (omega arith) in
    (c, rw (go_on, ran) rest, Painted-Wrote inbuf a b c w i u v r hu' (omega arith) one painted)
