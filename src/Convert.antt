-- ===== src/Convert.antt =====
-- src/soft_convert.c: converts a picture from YUYV (YUV 4:2:2, packed) to YUV 4:2:0 (planar). Widths
-- and heights are not negative, a pointer into a buffer is an index, and the cells of the buffers are
-- bytes, so that the mean of two fits in one.
pub mod Group
pub mod Row
pub mod Plane
pub mod Correct
mod Tests
use camkit.Base.{
  ℕ, zero, suc, ◌+◌, ◌*◌, ◌/◌, ◌%◌, ◌^◌, Bool, true, false, Option, none, some, List, Outcome, ok,
  aborted, fault, out_of_fuel, expect, require, ◌>>=◌, ◌>>◌, ◌==◌, ltb, if◌then◌else◌, length,
  get_elem?, set,
}

-- The pixel formats are the platform's numbers of them.
pub record CvtParam : Type 0 where
  pub inwidth : ℕ
  pub inheight : ℕ
  pub inpixfmt : ℕ
  pub outwidth : ℕ
  pub outheight : ℕ
  pub outpixfmt : ℕ

pub record CvtHandle : Type 0 where
  pub src_buffersize : ℕ
  pub dst_buffer : List ℕ
  pub dst_buffersize : ℕ
  pub params : CvtParam

-- The variables of the inner loop.
pub record Scan : Type 0 where
  pub outbuf : List ℕ
  pub line1 : ℕ
  pub line2 : ℕ
  pub m : ℕ
  pub n : ℕ
  pub u : ℕ
  pub v : ℕ

unfoldable pub store : List ℕ → ℕ → ℕ → Outcome (List ℕ)
store buf i x = if ltb i (length buf) then ok (set buf i x) else fault

-- Two pixels of each of the two lines.
unfoldable pub convert_group : List ℕ → Scan → Outcome Scan
unfolding store
convert_group inbuf s = do
  y1 ← expect (get_elem? inbuf s.line1)
  u1 ← expect (get_elem? inbuf (s.line1 + 1))
  y2 ← expect (get_elem? inbuf (s.line1 + 2))
  v1 ← expect (get_elem? inbuf (s.line1 + 3))
  y3 ← expect (get_elem? inbuf s.line2)
  u2 ← expect (get_elem? inbuf (s.line2 + 1))
  y4 ← expect (get_elem? inbuf (s.line2 + 2))
  v2 ← expect (get_elem? inbuf (s.line2 + 3))
  b1 ← store s.outbuf s.m y1
  b2 ← store b1 (s.m + 1) y2
  b3 ← store b2 s.n y3
  b4 ← store b3 (s.n + 1) y4
  b5 ← store b4 s.u ((u1 + u2) / 2)
  b6 ← store b5 s.v ((v1 + v2) / 2)
  ok (record {
    outbuf = b6;
    line1 = s.line1 + 4;
    line2 = s.line2 + 4;
    m = s.m + 2;
    n = s.n + 2;
    u = s.u + 1;
    v = s.v + 1;
  })

-- The inner loop, from `k` on.
unfoldable pub convert_lines : List ℕ → (width fuel k : ℕ) → Scan → Outcome Scan
unfolding convert_group
convert_lines inbuf width zero k s = out_of_fuel
convert_lines inbuf width (suc fuel) k s =
    if ltb k (width * 2)
    then convert_group inbuf s >>= (λ s'. convert_lines inbuf width fuel (k + 4) s')
    else ok s

-- The outer loop, from line `i` on. `j` is `i + 1`, and `y` counts the lines of the output.
unfoldable pub convert_rows : List ℕ → (width height fuel i y u v : ℕ) → List ℕ → Outcome (List ℕ)
unfolding convert_lines
convert_rows inbuf width height zero i y u v outbuf = out_of_fuel
convert_rows inbuf width height (suc fuel) i y u v outbuf =
    if ltb i height
    then convert_lines inbuf width (width + 1) 0 (record {
      outbuf = outbuf;
      line1 = i * width * 2;
      line2 = (i + 1) * width * 2;
      m = width * y;
      n = width * (y + 1);
      u = u;
      v = v;
    })
      >>= (λ s. convert_rows inbuf width height fuel (i + 2) (y + 2) s.u s.v s.outbuf)
    else ok outbuf

unfoldable pub yuv422_to_yuv420 : List ℕ → List ℕ → (width height : ℕ) → Outcome (List ℕ)
unfolding convert_rows
yuv422_to_yuv420 inbuf outbuf width height =
    convert_rows inbuf width height (height + 1) 0 0 (width * height) (width * height * 5 / 4)
      outbuf

-- A product that does not fit in an `int` is undefined.
unfoldable pub int : ℕ → Outcome ℕ
int n = if ltb n (2 ^ 31) then ok n else fault

-- The results of the two calls of `malloc` are arguments, and so are the numbers of the formats
-- YUYV and YUV420; `none` is NULL.
unfoldable pub convert_open :
    (yuyv yuv420 : ℕ) → Bool → (ℕ → Option (List ℕ)) → CvtParam → Outcome (Option CvtHandle)
unfolding int
convert_open yuyv yuv420 false malloc param = ok none
convert_open yuyv yuv420 true malloc param =
    if (param.inpixfmt == yuyv)
    then (if (param.outpixfmt == yuv420)
        then (if (param.inwidth == param.outwidth)
            then (if (param.inheight == param.outheight)
                then (do
                  src ← int (param.inwidth * param.inheight * 16)
                  dst ← int (param.outwidth * param.outheight * 12)
                  let size = dst / 8
                  elim (malloc size) [
                    | none ↦ ok none
                    | some buf ↦ ok (
                        some (record {
                          src_buffersize = src / 8;
                          dst_buffer = buf;
                          dst_buffersize = size;
                          params = param;
                        }))
                  ])
                else ok none)
            else ok none)
        else ok none)
    else ok none

-- The handle afterwards; `*poutbuf` is its `dst_buffer`, and `*posize` its `dst_buffersize`.
unfoldable pub convert_do : CvtHandle → List ℕ → (isize : ℕ) → Outcome CvtHandle
unfolding yuv422_to_yuv420
convert_do handle inbuf isize = do
  require (isize == handle.src_buffersize)
  out ← yuv422_to_yuv420 inbuf handle.dst_buffer handle.params.inwidth handle.params.inheight
  ok (record handle { dst_buffer = out })
