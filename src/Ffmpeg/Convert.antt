-- ===== src/Ffmpeg/Convert.antt =====
-- src/ffmpeg_convert.c: converts and scales pictures with libswscale.
pub mod Open
use camkit.Base.{ℕ, List, [], Outcome, ok, require, ◌>>=◌, ◌>>◌, ◌==◌, if◌then◌else◌}
use camkit.Convert.{CvtParam}
use camkit.Pack.Buffer.{read_bytes}

-- `enum AVPixelFormat`, as far as it is used.
pub data AvFormat : Type 0 where
  none_fmt yuv420p yuyv422 rgb565le rgb24 : AvFormat

-- The numbers of the V4L2 pixel formats.
pub record V4lFormats : Type 0 where
  pub yuv420 : ℕ
  pub yuyv : ℕ
  pub rgb565 : ℕ
  pub rgb24 : ℕ

unfoldable pub v4l_fmt2av_fmt : V4lFormats → ℕ → AvFormat
v4l_fmt2av_fmt v4l fmt =
    if fmt == v4l.yuv420
    then yuv420p
    else if fmt == v4l.yuyv
    then yuyv422
    else if fmt == v4l.rgb565
    then rgb565le
    else if fmt == v4l.rgb24
    then rgb24
    else none_fmt

-- The contents of a fresh buffer are not determined; `src_buffer` is empty until a picture is copied.
pub record CvtHandle : Type 0 where
  pub src_buffer : List ℕ
  pub src_buffersize : ℕ
  pub dst_buffersize : ℕ
  pub inavfmt : AvFormat
  pub outavfmt : AvFormat
  pub params : CvtParam

-- `sws_scale` is what the library makes of the picture; the result is `*poutbuf` and `*posize`.
unfoldable pub convert_do :
    (sws_scale : CvtHandle → List ℕ → List ℕ)
    → CvtHandle
    → (inbuf : List ℕ) → (isize : ℕ) → Outcome (CvtHandle × List ℕ × ℕ)
convert_do sws_scale handle inbuf isize = do
  require (isize == handle.src_buffersize)
  picture ← read_bytes inbuf 0 isize
  let filled = record handle { src_buffer = picture }
  ok (filled, sws_scale filled picture, handle.dst_buffersize)
