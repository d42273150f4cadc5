-- ===== src/Convert/Correct.antt =====
-- What `yuv422_to_yuv420` and `convert_do` of src/soft_convert.c compute.
use mathlib.Core.Path.{subst, ap₂}
use camkit.Base.{
  ℕ, ◌+◌, ◌*◌, ◌/◌, ◌^◌, ◌≤◌, ◌<◌, ◌≡◌, refl, ap, ◌∙◌, sym, ==_iff, Bool, true, false, Option, none,
  some, List, Outcome, ok, >>=-eq-ok, ◌==◌, ltb, if◌then◌else◌, arith, length, get_or, eq→==,
  Bool-cases, inl, inr,
}
use camkit.Convert.{
  CvtParam, CvtHandle, int, convert_rows, yuv422_to_yuv420, convert_open, convert_do,
}
use camkit.Convert.Plane.{Painted, convert_rows-Painted}

yuv422_to_yuv420-Painted :
    (inbuf outbuf : List ℕ) (w h : ℕ)
    → 8 * (w * h) ≤ length inbuf
    → 6 * (w * h) ≤ length outbuf
    → (out : List ℕ) × (yuv422_to_yuv420 inbuf outbuf (2 * w) (2 * h) ≡ ok out)
      × Painted inbuf outbuf w 0 (2 * w * (2 * h)) (5 * (w * h)) h out
unfolding yuv422_to_yuv420
yuv422_to_yuv420-Painted inbuf outbuf w h hi ho =
    let area : 2 * w * (2 * h) ≡ 4 * (w * h) = omega arith in
    let turn : h * w ≡ w * h = omega arith in
    let lines : 2 * h * (2 * w) * 2 ≡ 8 * (w * h) = omega arith in
    let v_offset : 2 * w * (2 * h) * 5 / 4 ≡ 5 * (w * h) = omega arith in
    let (c, ran, painted) =
      convert_rows-Painted inbuf outbuf w (2 * h) (2 * h + 1) 0 (2 * w * (2 * h)) (5 * (w * h)) h
        (omega arith) (omega arith) (omega arith) (omega arith) (omega arith) (omega arith) in
    (
      c,
      ap (λ v. convert_rows inbuf (2 * w) (2 * h) (2 * h + 1) 0 0 (2 * w * (2 * h)) v outbuf)
            v_offset
          ∙ ran,
      painted,
    )

-- For an even width 2 * w and height 2 * h, an input of at least 2 bytes to a pixel and an output
-- of at least 1.5, the conversion returns with neither buffer left, and the output keeps its
-- length. The pixel in line p and column x then has the luma that YUYV gives it, and the two
-- chroma planes hold, at line p / 2 and column x / 2, the mean of the chroma that the two lines of
-- the pair give these columns.
pub yuv422_to_yuv420-get_or :
    (inbuf outbuf : List ℕ) (w h p x : ℕ)
    → 8 * (w * h) ≤ length inbuf
    → 6 * (w * h) ≤ length outbuf
    → p < 2 * h
    → x < 2 * w
    → (out : List ℕ) × (yuv422_to_yuv420 inbuf outbuf (2 * w) (2 * h) ≡ ok out)
      × (length out ≡ length outbuf)
      × (get_or out (2 * w * p + x) 0 ≡ get_or inbuf (p * (2 * w) * 2 + 2 * x) 0)
      × (get_or out (2 * w * (2 * h) + p / 2 * w + x / 2) 0
          ≡ (get_or inbuf (2 * (p / 2) * (2 * w) * 2 + 4 * (x / 2) + 1) 0
              + get_or inbuf ((2 * (p / 2) + 1) * (2 * w) * 2 + 4 * (x / 2) + 1) 0)
            / 2)
      × (get_or out (5 * (w * h) + p / 2 * w + x / 2) 0
          ≡ (get_or inbuf (2 * (p / 2) * (2 * w) * 2 + 4 * (x / 2) + 3) 0
              + get_or inbuf ((2 * (p / 2) + 1) * (2 * w) * 2 + 4 * (x / 2) + 3) 0)
            / 2)
yuv422_to_yuv420-get_or inbuf outbuf w h p x hi ho hp hx =
    let (out, ran, painted) = yuv422_to_yuv420-Painted inbuf outbuf w h hi ho in
    let e : 0 + p ≡ p = omega arith in
    let f : 0 + 2 * (p / 2) ≡ 2 * (p / 2) = omega arith in
    (
      out,
      ran,
      painted.size,
      rw e at (painted.luma p x hp hx),
      rw f at (painted.chroma_u (p / 2) (x / 2) (omega arith) (omega arith)),
      rw f at (painted.chroma_v (p / 2) (x / 2) (omega arith) (omega arith)),
    )

-- A handle that was opened came past the checks.
if-some :
    (b : Bool) (m : Outcome (Option CvtHandle)) (h : CvtHandle)
    → (if b then m else ok none) ≡ ok (some h)
    → m ≡ ok (some h)
if-some true m h e = e
if-some false m h e = cc

int-eq-ok : (n m : ℕ) → int n ≡ ok m → m ≡ n
unfolding int
int-eq-ok n m e = elim (Bool-cases (ltb n (2 ^ 31))) [
  | inl fits ↦ ground arith
  | inr over ↦ ground arith
]

record Opened (malloc : ℕ → Option (List ℕ)) (param : CvtParam) (h : CvtHandle) : Type 0 where
  src : h.src_buffersize ≡ param.inwidth * param.inheight * 16 / 8
  dst : h.dst_buffersize ≡ param.outwidth * param.outheight * 12 / 8
  params : h.params ≡ param
  buffer : malloc h.dst_buffersize ≡ some h.dst_buffer
  width : (param.inwidth == param.outwidth) ≡ true
  height : (param.inheight == param.outheight) ≡ true

if-true :
    (b : Bool) (m : Outcome (Option CvtHandle)) (h : CvtHandle)
    → (if b then m else ok none) ≡ ok (some h)
    → b ≡ true
if-true true m h e = refl
if-true false m h e = cc

convert_open-Opened :
    (yuyv yuv420 : ℕ) (got : Bool) (malloc : ℕ → Option (List ℕ)) (param : CvtParam) (h : CvtHandle)
    → convert_open yuyv yuv420 got malloc param ≡ ok (some h)
    → Opened malloc param h
unfolding convert_open
convert_open-Opened yuyv yuv420 false malloc param h e = cc
convert_open-Opened yuyv yuv420 true malloc param h e =
    let e1 = if-some (param.inpixfmt == yuyv) _ h e in
    let e2 = if-some (param.outpixfmt == yuv420) _ h e1 in
    let e3 = if-some (param.inwidth == param.outwidth) _ h e2 in
    let e4 = if-some (param.inheight == param.outheight) _ h e3 in
    let (src, s, e5) = >>=-eq-ok (int (param.inwidth * param.inheight * 16)) _ e4 in
    let (dst, d, e6) = >>=-eq-ok (int (param.outwidth * param.outheight * 12)) _ e5 in
    filled src dst (int-eq-ok _ src s) (int-eq-ok _ dst d)
      (if-true (param.inwidth == param.outwidth) _ h e2)
      (if-true (param.inheight == param.outheight) _ h e3) (malloc (dst / 8)) refl e6
  where
    filled :
        (src dst : ℕ)
        → src ≡ param.inwidth * param.inheight * 16
        → dst ≡ param.outwidth * param.outheight * 12
        → (param.inwidth == param.outwidth) ≡ true
        → (param.inheight == param.outheight) ≡ true
        → (got : Option (List ℕ)) → malloc (dst / 8) ≡ got
        → ◌≡◌ {A = Outcome (Option CvtHandle)}
            (elim got [
              | none ↦ ok none
              | some buf ↦ ok (
                  some (record {
                    src_buffersize = src / 8;
                    dst_buffer = buf;
                    dst_buffersize = dst / 8;
                    params = param;
                  }))
            ])
            (ok (some h))
        → Opened malloc param h
    filled src dst es ed ew eh none m t = cc
    filled src dst es ed ew eh (some buf) m t =
        let same : (record {
          src_buffersize = src / 8;
          dst_buffer = buf;
          dst_buffersize = dst / 8;
          params = param;
        })
            ≡ h =
          cc in
        subst (Opened malloc param) same (record {
          src = ap (λ n. n / 8) es;
          dst = ap (λ n. n / 8) ed;
          params = refl;
          buffer = m;
          width = ew;
          height = eh;
        })

-- A handle that `convert_open` has given for an even width and height converts every input of the
-- size that it asks for, without a fault, into a picture of the size that it announces; for this
-- `malloc` must give the number of bytes asked of it.
pub convert_do-convert_open :
    (yuyv yuv420 : ℕ) (got : Bool) (malloc : ℕ → Option (List ℕ)) (param : CvtParam)
    (handle : CvtHandle) (inbuf : List ℕ) (w h : ℕ)
    → ((n : ℕ) (buf : List ℕ) → malloc n ≡ some buf → length buf ≡ n)
    → convert_open yuyv yuv420 got malloc param ≡ ok (some handle)
    → param.inwidth ≡ 2 * w
    → param.inheight ≡ 2 * h
    → length inbuf ≡ handle.src_buffersize
    → (out : List ℕ) × (convert_do handle inbuf (length inbuf)
        ≡ ok (record handle { dst_buffer = out }))
      × (length out ≡ handle.dst_buffersize)
unfolding convert_do
convert_do-convert_open yuyv yuv420 got malloc param handle inbuf w h sized opened ew eh isize =
    let o = convert_open-Opened yuyv yuv420 got malloc param handle opened in
    let len : length handle.dst_buffer ≡ handle.dst_buffersize =
      sized handle.dst_buffersize handle.dst_buffer o.buffer in
    let outw : param.inwidth ≡ param.outwidth = (==_iff _ _).0 o.width in
    let outh : param.inheight ≡ param.outheight = (==_iff _ _).0 o.height in
    let src : handle.src_buffersize ≡ 2 * w * (2 * h) * 16 / 8 =
      o.src ∙ ap₂ (λ a b. a * b * 16 / 8) ew eh in
    let dst : handle.dst_buffersize ≡ 2 * w * (2 * h) * 12 / 8 =
      o.dst ∙ ap₂ (λ a b. a * b * 12 / 8) (sym outw ∙ ew) (sym outh ∙ eh) in
    let area : 2 * w * (2 * h) ≡ 4 * (w * h) = omega arith in
    let (out, ran, painted) =
      yuv422_to_yuv420-Painted inbuf handle.dst_buffer w h (omega arith) (omega arith) in
    let ran' : yuv422_to_yuv420 inbuf handle.dst_buffer handle.params.inwidth handle.params.inheight
        ≡ ok out =
      ap₂ (yuv422_to_yuv420 inbuf handle.dst_buffer) (ap (λ p. p.inwidth) o.params ∙ ew)
        (ap (λ p. p.inheight) o.params ∙ eh)
      ∙ ran in
    (out, rw (eq→== (length inbuf) handle.src_buffersize isize, ran') refl, painted.size ∙ len)
