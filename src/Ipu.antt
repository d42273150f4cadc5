-- ===== src/Ipu.antt =====
-- src/ipu_convert.c: converts pictures on the image processing unit of an i.MX6.
pub mod Open
pub mod Balance
mod Tests
use camkit.Base.{
  ℕ, zero, suc, ◌*◌, ◌/◌, ◌%◌, ◌^◌, Bool, true, false, Option, none, some, List, [], Outcome, ok,
  require, ◌>>=◌, ◌>>◌, ◌==◌, if◌then◌else◌,
}
use camkit.Convert.{CvtParam}
use camkit.Pack.Buffer.{read_bytes}

-- The formats of the IPU that `fmt2bpp` knows.
pub data IpuFormat : Type 0 where
  rgb565 yuyv uyvy yuv422p yvu422p : IpuFormat
  bgr24 rgb24 yuv444 yuv444p : IpuFormat
  bgr32 bgra32 rgb32 rgba32 abgr32 : IpuFormat
  yuv420p yvu420p yuv420p2 nv12 tiled_nv12 : IpuFormat
  other_format : IpuFormat

-- Bits of a pixel.
unfoldable pub fmt2bpp : IpuFormat → ℕ
fmt2bpp rgb565 = 16
fmt2bpp yuyv = 16
fmt2bpp uyvy = 16
fmt2bpp yuv422p = 16
fmt2bpp yvu422p = 16
fmt2bpp bgr24 = 24
fmt2bpp rgb24 = 24
fmt2bpp yuv444 = 24
fmt2bpp yuv444p = 24
fmt2bpp bgr32 = 32
fmt2bpp bgra32 = 32
fmt2bpp rgb32 = 32
fmt2bpp rgba32 = 32
fmt2bpp abgr32 = 32
fmt2bpp yuv420p = 12
fmt2bpp yvu420p = 12
fmt2bpp yuv420p2 = 12
fmt2bpp nv12 = 12
fmt2bpp tiled_nv12 = 12
fmt2bpp other_format = 8

-- What `mmap` gives: `MAP_FAILED` is not the null pointer.
pub data Pointer : Type 0 where
  null map_failed mapped : Pointer

-- `none` is the descriptor -1. The task's sizes and formats are those of `params`; `in_paddr` and
-- `out_paddr` are its `paddr`s.
pub record CvtHandle : Type 0 where
  pub fd : Option ℕ
  pub in_paddr : ℕ
  pub out_paddr : ℕ
  pub ipu_inbuf : Pointer
  pub ipu_outbuf : Pointer
  pub in_bytes : List ℕ
  pub ipu_insize : ℕ
  pub ipu_outsize : ℕ
  pub params : CvtParam

-- The bytes of a picture, on unsigned 32-bit numbers.
unfoldable pub size_of : IpuFormat → (width height : ℕ) → ℕ
unfolding fmt2bpp
size_of format width height = width * height * fmt2bpp format % 2 ^ 32 / 8

-- `queue_task` is the answer of `IPU_QUEUE_TASK`: the output, or an error. `none` stands for the
-- return value -1, otherwise the result is `*obuf` and `*olen`.
unfoldable pub convert_do :
    (queue_task : CvtHandle → Option (List ℕ))
    → CvtHandle
    → (ibuf : List ℕ) → (ilen : ℕ) → Outcome (CvtHandle × Option (List ℕ × ℕ))
convert_do queue_task handle ibuf ilen = do
  require (ilen == handle.ipu_insize)
  picture ← read_bytes ibuf 0 handle.ipu_insize
  let filled = record handle { in_bytes = picture }
  ok (filled, elim (queue_task filled) [ none ↦ none | some out ↦ some (out, filled.ipu_outsize) ])
