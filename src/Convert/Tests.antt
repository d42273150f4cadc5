-- ===== src/Convert/Tests.antt =====
-- The theorems on src/soft_convert.c at a picture of 2 lines of 2 pixels.
use camkit.Base.{
  ℕ, ◌≡◌, refl, true, Option, some, List, [], ◌∷◌, ok, arith, length, get_or, replicate,
  length-replicate, ap, sym, ◌∙◌,
}
use camkit.Convert.{CvtParam, CvtHandle, int, convert_open, convert_do, yuv422_to_yuv420}
use camkit.Convert.Correct.{yuv422_to_yuv420-get_or, convert_do-convert_open}

abbrev frame : List ℕ
frame = 10 ∷ 100 ∷ 20 ∷ 200 ∷ 30 ∷ 50 ∷ 40 ∷ 60 ∷ []

abbrev blank : List ℕ
blank = replicate 6 0

yuv422_to_yuv420-get_or_example :
    (out : List ℕ) × (yuv422_to_yuv420 frame blank 2 2 ≡ ok out)
    × (length out ≡ 6)
    × (get_or out 3 0 ≡ 40)
    × (get_or out 4 0 ≡ 75)
    × (get_or out 5 0 ≡ 130)
yuv422_to_yuv420-get_or_example =
    yuv422_to_yuv420-get_or frame blank 1 1 1 1 (omega arith) (omega arith) (omega arith)
      (omega arith)

abbrev malloc : ℕ → Option (List ℕ)
malloc n = some (replicate n 0)

malloc-length : (n : ℕ) (buf : List ℕ) → malloc n ≡ some buf → length buf ≡ n
malloc-length n buf e =
    let same : replicate n 0 ≡ buf = cc in ap length (sym same) ∙ length-replicate n 0

abbrev tiny : CvtParam
tiny = record {
  inwidth = 2;
  inheight = 2;
  inpixfmt = 1;
  outwidth = 2;
  outheight = 2;
  outpixfmt = 2;
}

abbrev opened : CvtHandle
opened = record { src_buffersize = 8; dst_buffer = blank; dst_buffersize = 6; params = tiny }

tiny-opened : convert_open 1 2 true malloc tiny ≡ ok (some opened)
unfolding convert_open int
tiny-opened = refl

convert_do-convert_open_example :
    (out : List ℕ) × (convert_do opened frame 8 ≡ ok (record opened { dst_buffer = out }))
    × (length out ≡ 6)
convert_do-convert_open_example =
    convert_do-convert_open 1 2 true malloc tiny opened frame 1 1 malloc-length tiny-opened refl
      refl refl
