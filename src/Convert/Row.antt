-- ===== src/Convert/Row.antt =====
-- Two lines of a picture, by the inner loop of `yuv422_to_yuv420` in src/soft_convert.c.
use camkit.Base.{
  ℕ, zero, suc, ◌+◌, ◌-◌, ◌*◌, ◌/◌, ◌≤◌, ◌<◌, ◌≡◌, refl, ap, ◌∙◌, true, false, List, ok, ltb, arith,
  length, get_or, ◌⊎◌, inl, inr, Bool-cases,
}
use camkit.Convert.{Scan, convert_lines}
use camkit.Convert.Group.{
  Room, advance, group_out, length-group_out, convert_group-ok, group_out-get_or,
}

-- The two lines `g` groups long have been written from `a` to `b`: the luma of both, and one pixel
-- of either chroma to each group, the mean of the two lines. No other cell has changed.
pub record Wrote (inbuf : List ℕ) (s : Scan) (g : ℕ) (b : List ℕ) : Type 0 where
  pub size : length b ≡ length s.outbuf
  pub luma1 : (x : ℕ) → x < 2 * g → get_or b (s.m + x) 0 ≡ get_or inbuf (s.line1 + 2 * x) 0
  pub luma2 : (x : ℕ) → x < 2 * g → get_or b (s.n + x) 0 ≡ get_or inbuf (s.line2 + 2 * x) 0
  pub chroma_u :
      (x : ℕ)
      → x < g
      → get_or b (s.u + x) 0
        ≡ (get_or inbuf (s.line1 + 4 * x + 1) 0 + get_or inbuf (s.line2 + 4 * x + 1) 0) / 2
  pub chroma_v :
      (x : ℕ)
      → x < g
      → get_or b (s.v + x) 0
        ≡ (get_or inbuf (s.line1 + 4 * x + 3) 0 + get_or inbuf (s.line2 + 4 * x + 3) 0) / 2
  pub others :
      (i : ℕ)
      → (i < s.m)
        ⊎ ((s.m + 2 * g ≤ i) × (i < s.n))
        ⊎ ((s.n + 2 * g ≤ i) × (i < s.u))
        ⊎ ((s.u + g ≤ i) × (i < s.v))
        ⊎ (s.v + g ≤ i)
      → get_or b i 0 ≡ get_or s.outbuf i 0

group_out-Wrote :
    (inbuf : List ℕ) (s : Scan) (g : ℕ)
    → Room (length inbuf) (length s.outbuf) (suc g) s
    → Wrote inbuf s 1 (group_out inbuf s)
group_out-Wrote inbuf s g r =
    let c = r.luma in
    let d = r.chroma in
    let e = r.planes in
    let at = group_out-get_or inbuf s g r in
    record {
      size = length-group_out inbuf s;
      luma1 = λ x h. ground (arith, at (s.m + x));
      luma2 = λ x h. ground (arith, at (s.n + x));
      chroma_u = λ x h. ground (arith, at (s.u + x));
      chroma_v = λ x h. ground (arith, at (s.v + x));
      others = λ i h. ground (arith, at i);
    }

abbrev cell_at : {i j : ℕ} (xs : List ℕ) → i ≡ j → get_or xs i 0 ≡ get_or xs j 0
cell_at xs e = ap (λ i. get_or xs i 0) e

-- One group, and then `g` more.
Wrote-advance :
    (inbuf : List ℕ) (s : Scan) (g : ℕ) (b c : List ℕ)
    → Room (length inbuf) (length s.outbuf) (suc g) s
    → Wrote inbuf s 1 b
    → Wrote inbuf (advance b s) g c
    → Wrote inbuf s (suc g) c
Wrote-advance inbuf s g b c r one rest = record {
  size = rest.size ∙ one.size;
  luma1 = λ x h. elim (Bool-cases (ltb x 2)) [
    | inl new ↦ rest.others (s.m + x) (inl (ground arith)) ∙ one.luma1 x (ground arith)
    | inr old ↦
        let ge : 2 ≤ x = ground arith in
        cell_at c (let e : s.m + x ≡ s.m + 2 + (x - 2) = omega arith in e)
        ∙ rest.luma1 (x - 2) (omega arith)
        ∙ cell_at inbuf (let e : s.line1 + 4 + 2 * (x - 2) ≡ s.line1 + 2 * x = omega arith in e)
  ];
  luma2 = λ x h. elim (Bool-cases (ltb x 2)) [
    | inl new ↦
        let lt : x < 2 = ground arith in
        rest.others (s.n + x) (inr (inl (omega arith, omega arith))) ∙ one.luma2 x (omega arith)
    | inr old ↦
        let ge : 2 ≤ x = ground arith in
        cell_at c (let e : s.n + x ≡ s.n + 2 + (x - 2) = omega arith in e)
        ∙ rest.luma2 (x - 2) (omega arith)
        ∙ cell_at inbuf (let e : s.line2 + 4 + 2 * (x - 2) ≡ s.line2 + 2 * x = omega arith in e)
  ];
  chroma_u = λ x h. elim (Bool-cases (ltb x 1)) [
    | inl new ↦
        let lt : x < 1 = ground arith in
        rest.others (s.u + x) (inr (inr (inl (omega arith, omega arith)))) ∙ one.chroma_u x lt
    | inr old ↦
        let ge : 1 ≤ x = ground arith in
        let e1 : s.line1 + 4 + 4 * (x - 1) + 1 ≡ s.line1 + 4 * x + 1 = omega arith in
        let e2 : s.line2 + 4 + 4 * (x - 1) + 1 ≡ s.line2 + 4 * x + 1 = omega arith in
        cell_at c (let e : s.u + x ≡ s.u + 1 + (x - 1) = omega arith in e)
        ∙ rest.chroma_u (x - 1) (omega arith)
        ∙ rw (e1, e2) refl
  ];
  chroma_v = λ x h. elim (Bool-cases (ltb x 1)) [
    | inl new ↦
        let lt : x < 1 = ground arith in
        rest.others (s.v + x) (inr (inr (inr (inl (omega arith, omega arith))))) ∙ one.chroma_v x lt
    | inr old ↦
        let ge : 1 ≤ x = ground arith in
        let e1 : s.line1 + 4 + 4 * (x - 1) + 3 ≡ s.line1 + 4 * x + 3 = omega arith in
        let e2 : s.line2 + 4 + 4 * (x - 1) + 3 ≡ s.line2 + 4 * x + 3 = omega arith in
        cell_at c (let e : s.v + x ≡ s.v + 1 + (x - 1) = omega arith in e)
        ∙ rest.chroma_v (x - 1) (omega arith)
        ∙ rw (e1, e2) refl
  ];
  others = λ i h. rest.others i (later i h) ∙ one.others i (now i h);
}
  where
    later :
        (i : ℕ)
        → (i < s.m)
          ⊎ ((s.m + 2 * suc g ≤ i) × (i < s.n))
          ⊎ ((s.n + 2 * suc g ≤ i) × (i < s.u))
          ⊎ ((s.u + suc g ≤ i) × (i < s.v))
          ⊎ (s.v + suc g ≤ i)
        → (i < s.m + 2)
          ⊎ ((s.m + 2 + 2 * g ≤ i) × (i < s.n + 2))
          ⊎ ((s.n + 2 + 2 * g ≤ i) × (i < s.u + 1))
          ⊎ ((s.u + 1 + g ≤ i) × (i < s.v + 1))
          ⊎ (s.v + 1 + g ≤ i)
    later i (inl h) = inl (omega arith)
    later i (inr (inl (a, h))) = inr (inl (omega arith, omega arith))
    later i (inr (inr (inl (a, h)))) = inr (inr (inl (omega arith, omega arith)))
    later i (inr (inr (inr (inl (a, h))))) = inr (inr (inr (inl (omega arith, omega arith))))
    later i (inr (inr (inr (inr h)))) = inr (inr (inr (inr (omega arith))))

    now :
        (i : ℕ)
        → (i < s.m)
          ⊎ ((s.m + 2 * suc g ≤ i) × (i < s.n))
          ⊎ ((s.n + 2 * suc g ≤ i) × (i < s.u))
          ⊎ ((s.u + suc g ≤ i) × (i < s.v))
          ⊎ (s.v + suc g ≤ i)
        → (i < s.m)
          ⊎ ((s.m + 2 * 1 ≤ i) × (i < s.n))
          ⊎ ((s.n + 2 * 1 ≤ i) × (i < s.u))
          ⊎ ((s.u + 1 ≤ i) × (i < s.v))
          ⊎ (s.v + 1 ≤ i)
    now i (inl h) = inl h
    now i (inr (inl (a, h))) = inr (inl (omega arith, omega arith))
    now i (inr (inr (inl (a, h)))) = inr (inr (inl (omega arith, omega arith)))
    now i (inr (inr (inr (inl (a, h))))) = inr (inr (inr (inl (omega arith, omega arith))))
    now i (inr (inr (inr (inr h)))) = inr (inr (inr (inr (omega arith))))

Wrote-none : (inbuf : List ℕ) (s : Scan) → Wrote inbuf s 0 s.outbuf
Wrote-none inbuf s = record {
  size = refl;
  luma1 = λ x h. absurd (omega arith);
  luma2 = λ x h. absurd (omega arith);
  chroma_u = λ x h. absurd (omega arith);
  chroma_v = λ x h. absurd (omega arith);
  others = λ i h. refl;
}

-- The variables after the inner loop.
abbrev pub advance_by : ℕ → List ℕ → Scan → Scan
advance_by g out s = record {
  outbuf = out;
  line1 = s.line1 + 4 * g;
  line2 = s.line2 + 4 * g;
  m = s.m + 2 * g;
  n = s.n + 2 * g;
  u = s.u + g;
  v = s.v + g;
}

pub convert_lines-Wrote :
    (inbuf : List ℕ) (width fuel k g : ℕ) (s : Scan)
    → k + 4 * g ≡ width * 2
    → g < fuel
    → Room (length inbuf) (length s.outbuf) g s
    → (c : List ℕ) × (convert_lines inbuf width fuel k s ≡ ok (advance_by g c s))
      × Wrote inbuf s g c
unfolding convert_lines
convert_lines-Wrote inbuf width zero k g s e h r = absurd (omega arith)
convert_lines-Wrote inbuf width (suc fuel) k zero s e h r =
    let stop : ltb k (width * 2) ≡ false = ground arith in
    (s.outbuf, rw stop (ap ok (stay s)), Wrote-none inbuf s)
  where
    stay : (s : Scan) → s ≡ advance_by 0 s.outbuf s
    stay s =
        let e1 : s.line1 + 4 * 0 ≡ s.line1 = omega arith in
        let e2 : s.line2 + 4 * 0 ≡ s.line2 = omega arith in
        let e3 : s.m + 2 * 0 ≡ s.m = omega arith in
        let e4 : s.n + 2 * 0 ≡ s.n = omega arith in
        let e5 : s.u + 0 ≡ s.u = omega arith in
        let e6 : s.v + 0 ≡ s.v = omega arith in rw (e1, e2, e3, e4, e5, e6) refl
convert_lines-Wrote inbuf width (suc fuel) k (suc g) s e h r =
    let go_on : ltb k (width * 2) ≡ true = ground arith in
    let b = group_out inbuf s in
    let len = length-group_out inbuf s in
    let a1 = r.first_line in
    let a2 = r.second_line in
    let a3 = r.luma in
    let a4 = r.chroma in
    let a5 = r.planes in
    let a6 = r.end in
    let room : Room (length inbuf) (length b) g (advance b s) = record {
      first_line = omega arith;
      second_line = omega arith;
      luma = omega arith;
      chroma = omega arith;
      planes = omega arith;
      end = omega arith;
    } in
    let (c, ran, wrote) =
      convert_lines-Wrote inbuf width fuel (k + 4) g (advance b s) (omega arith) (omega arith)
        room in
    (
      c,
      rw (go_on, convert_group-ok inbuf s g r) (ran ∙ ap ok (step c s)),
      Wrote-advance inbuf s g b c r (group_out-Wrote inbuf s g r) wrote,
    )
  where
    step :
        (c : List ℕ) (s : Scan)
        → advance_by g c (advance (group_out inbuf s) s) ≡ advance_by (suc g) c s
    step c s =
        let e1 : s.line1 + 4 + 4 * g ≡ s.line1 + 4 * suc g = omega arith in
        let e2 : s.line2 + 4 + 4 * g ≡ s.line2 + 4 * suc g = omega arith in
        let e3 : s.m + 2 + 2 * g ≡ s.m + 2 * suc g = omega arith in
        let e4 : s.n + 2 + 2 * g ≡ s.n + 2 * suc g = omega arith in
        let e5 : s.u + 1 + g ≡ s.u + suc g = omega arith in
        let e6 : s.v + 1 + g ≡ s.v + suc g = omega arith in rw (e1, e2, e3, e4, e5, e6) refl
