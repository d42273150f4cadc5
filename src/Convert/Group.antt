-- ===== src/Convert/Group.antt =====
-- One turn of the inner loop of `yuv422_to_yuv420` in src/soft_convert.c.
use camkit.Base.{
  ℕ, zero, suc, ◌+◌, ◌*◌, ◌/◌, ◌≤◌, ◌<◌, ◌≡◌, refl, ◌∙◌, List, [], ◌∷◌, ok, ◌==◌, if◌then◌else◌,
  arith, length, get_or, set, length-set, get_elem?-eq-get_or, lt→ltb,
}
use camkit.Convert.{Scan, store, convert_group}

pub get_or-set :
    (xs : List ℕ) (i j v : ℕ)
    → i < length xs
    → get_or (set xs i v) j 0 ≡ (if i == j then v else get_or xs j 0)
get_or-set [] i j v h = absurd (omega arith)
get_or-set (x ∷ xs) zero zero v h = refl
get_or-set (x ∷ xs) zero (suc j) v h = ground arith
get_or-set (x ∷ xs) (suc i) zero v h = ground arith
get_or-set (x ∷ xs) (suc i) (suc j) v h =
    let e : (suc i == suc j) ≡ (i == j) = ground arith in rw e (get_or-set xs i j v (omega arith))

store-ok :
    (size : ℕ) (xs : List ℕ) (i x : ℕ)
    → length xs ≡ size
    → i < size
    → (store xs i x ≡ ok (set xs i x)) × (length (set xs i x) ≡ size)
unfolding store
store-ok size xs i x len h =
    let inside : i < length xs = omega arith in
    (rw (lt→ltb i (length xs) inside) refl, length-set xs i x ∙ len)

-- Where the cursors of the loop stand: the two lines and the three planes do not overlap, and `g`
-- groups lie ahead in each.
pub record Room (input output : ℕ) (g : ℕ) (s : Scan) : Type 0 where
  pub first_line : s.line1 + 4 * g ≤ input
  pub second_line : s.line2 + 4 * g ≤ input
  pub luma : s.m + 2 * g ≤ s.n
  pub chroma : s.n + 2 * g ≤ s.u
  pub planes : s.u + g ≤ s.v
  pub end : s.v + g ≤ output

-- The output after one group.
abbrev pub group_out : List ℕ → Scan → List ℕ
group_out inbuf s =
    set
      (set
        (set
          (set
            (set (set s.outbuf s.m (get_or inbuf s.line1 0)) (s.m + 1)
              (get_or inbuf (s.line1 + 2) 0))
            s.n (get_or inbuf s.line2 0))
          (s.n + 1) (get_or inbuf (s.line2 + 2) 0))
        s.u ((get_or inbuf (s.line1 + 1) 0 + get_or inbuf (s.line2 + 1) 0) / 2))
      s.v ((get_or inbuf (s.line1 + 3) 0 + get_or inbuf (s.line2 + 3) 0) / 2)

abbrev pub advance : List ℕ → Scan → Scan
advance out s = record {
  outbuf = out;
  line1 = s.line1 + 4;
  line2 = s.line2 + 4;
  m = s.m + 2;
  n = s.n + 2;
  u = s.u + 1;
  v = s.v + 1;
}

pub length-group_out : (inbuf : List ℕ) (s : Scan) → length (group_out inbuf s) ≡ length s.outbuf
length-group_out inbuf s = simp length-set

pub convert_group-ok :
    (inbuf : List ℕ) (s : Scan) (g : ℕ)
    → Room (length inbuf) (length s.outbuf) (suc g) s
    → convert_group inbuf s ≡ ok (advance (group_out inbuf s) s)
unfolding convert_group
convert_group-ok inbuf s g r =
    let a = r.first_line in
    let b = r.second_line in
    let c = r.luma in
    let d = r.chroma in
    let e = r.planes in
    let f = r.end in
    let size = length s.outbuf in
    let (e1, l1) = store-ok size s.outbuf s.m (get_or inbuf s.line1 0) refl (omega arith) in
    let (e2, l2) = store-ok size _ (s.m + 1) (get_or inbuf (s.line1 + 2) 0) l1 (omega arith) in
    let (e3, l3) = store-ok size _ s.n (get_or inbuf s.line2 0) l2 (omega arith) in
    let (e4, l4) = store-ok size _ (s.n + 1) (get_or inbuf (s.line2 + 2) 0) l3 (omega arith) in
    let (e5, l5) =
      store-ok size _ s.u ((get_or inbuf (s.line1 + 1) 0 + get_or inbuf (s.line2 + 1) 0) / 2) l4
        (omega arith) in
    let (e6, l6) =
      store-ok size _ s.v ((get_or inbuf (s.line1 + 3) 0 + get_or inbuf (s.line2 + 3) 0) / 2) l5
        (omega arith) in
    rw
      (
        get_elem?-eq-get_or inbuf s.line1 0 (omega arith),
        get_elem?-eq-get_or inbuf (s.line1 + 1) 0 (omega arith),
        get_elem?-eq-get_or inbuf (s.line1 + 2) 0 (omega arith),
        get_elem?-eq-get_or inbuf (s.line1 + 3) 0 (omega arith),
        get_elem?-eq-get_or inbuf s.line2 0 (omega arith),
        get_elem?-eq-get_or inbuf (s.line2 + 1) 0 (omega arith),
        get_elem?-eq-get_or inbuf (s.line2 + 2) 0 (omega arith),
        get_elem?-eq-get_or inbuf (s.line2 + 3) 0 (omega arith),
        e1,
        e2,
        e3,
        e4,
        e5,
        e6,
      )
      refl

-- What a cell holds after one group.
pub group_out-get_or :
    (inbuf : List ℕ) (s : Scan) (g : ℕ)
    → Room (length inbuf) (length s.outbuf) (suc g) s
    → (i : ℕ)
    → get_or (group_out inbuf s) i 0 ≡ (
        if s.v == i
        then (get_or inbuf (s.line1 + 3) 0 + get_or inbuf (s.line2 + 3) 0) / 2
        else if s.u == i
        then (get_or inbuf (s.line1 + 1) 0 + get_or inbuf (s.line2 + 1) 0) / 2
        else if s.n + 1 == i
        then get_or inbuf (s.line2 + 2) 0
        else if s.n == i
        then get_or inbuf s.line2 0
        else if s.m + 1 == i
        then get_or inbuf (s.line1 + 2) 0
        else if s.m == i
        then get_or inbuf s.line1 0
        else get_or s.outbuf i 0)
group_out-get_or inbuf s g r i =
    let c = r.luma in
    let d = r.chroma in
    let e = r.planes in
    let f = r.end in
    let b1 = set s.outbuf s.m (get_or inbuf s.line1 0) in
    let b2 = set b1 (s.m + 1) (get_or inbuf (s.line1 + 2) 0) in
    let b3 = set b2 s.n (get_or inbuf s.line2 0) in
    let b4 = set b3 (s.n + 1) (get_or inbuf (s.line2 + 2) 0) in
    let b5 = set b4 s.u ((get_or inbuf (s.line1 + 1) 0 + get_or inbuf (s.line2 + 1) 0) / 2) in
    let l1 = length-set s.outbuf s.m (get_or inbuf s.line1 0) in
    let l2 = length-set b1 (s.m + 1) (get_or inbuf (s.line1 + 2) 0) ∙ l1 in
    let l3 = length-set b2 s.n (get_or inbuf s.line2 0) ∙ l2 in
    let l4 = length-set b3 (s.n + 1) (get_or inbuf (s.line2 + 2) 0) ∙ l3 in
    let l5 =
      length-set b4 s.u ((get_or inbuf (s.line1 + 1) 0 + get_or inbuf (s.line2 + 1) 0) / 2) ∙ l4 in
    rw
      (
        get_or-set b5 s.v i _ (omega (arith, l5)),
        get_or-set b4 s.u i _ (omega (arith, l4)),
        get_or-set b3 (s.n + 1) i _ (omega (arith, l3)),
        get_or-set b2 s.n i _ (omega (arith, l2)),
        get_or-set b1 (s.m + 1) i _ (omega (arith, l1)),
        get_or-set s.outbuf s.m i _ (omega arith),
      )
      refl
