-- ===== src/Ffmpeg/Balance.antt =====
-- What the backends over FFmpeg hold after they are opened and closed.
use camkit.Base.{ℕ, ◌≡◌, refl, true, false, Bool, [], ok}
use camkit.Base.Resources.{replay, open_close}
use camkit.Convert.{CvtParam}
use camkit.Ffmpeg.Convert.{AvFormat, V4lFormats}
use camkit.Ffmpeg.Convert.Open as Convert
use camkit.Ffmpeg.Encode.{EncParam}
use camkit.Ffmpeg.Encode.Open as Encode

-- Whatever the library answers, the converter ends with nothing held after it is opened and, where
-- this succeeds, closed; nothing is given back twice on the way.
pub convert_open-convert_close_sws :
    (v4l : V4lFormats) (size : AvFormat → (width height : ℕ) → ℕ) (a : Convert.Answers)
    (param : CvtParam)
    → replay Convert.Resource-discrete
        (open_close (Convert.convert_open v4l size a param) Convert.convert_close).0
        []
      ≡ ok []
unfolding Convert.convert_open Convert.convert_close Convert.Resource-discrete replay
convert_open-convert_close_sws v4l size a param =
    go a.malloc_handle a.get_context a.alloc_src_frame a.malloc_src a.alloc_dst_frame a.malloc_dst
  where
    go :
        (handle context src src_buf dst dst_buf : Bool)
        → replay Convert.Resource-discrete
            (open_close
              (Convert.convert_open v4l size
                (record {
                  malloc_handle = handle;
                  get_context = context;
                  alloc_src_frame = src;
                  malloc_src = src_buf;
                  alloc_dst_frame = dst;
                  malloc_dst = dst_buf;
                })
                param)
              Convert.convert_close).0
            []
          ≡ ok []
    go false b c d e f = refl
    go true false c d e f = refl
    go true true false d e f = refl
    go true true true false e f = refl
    go true true true true false f = refl
    go true true true true true false = refl
    go true true true true true true = refl

-- The same of the encoder.
pub encode_open-encode_close_avcodec :
    (size : (width height : ℕ) → ℕ) (a : Encode.Answers) (param : EncParam)
    → replay Encode.Resource-discrete
        (open_close (Encode.encode_open size a param) Encode.encode_close).0
        []
      ≡ ok []
unfolding Encode.encode_open Encode.encode_close Encode.Resource-discrete replay
encode_open-encode_close_avcodec size a param =
    go a.malloc_handle a.find_encoder a.alloc_context a.open_codec a.alloc_frame a.malloc_inbuffer
  where
    go :
        (handle codec context opened frame buffer : Bool)
        → replay Encode.Resource-discrete
            (open_close
              (Encode.encode_open size
                (record {
                  malloc_handle = handle;
                  find_encoder = codec;
                  alloc_context = context;
                  open_codec = opened;
                  alloc_frame = frame;
                  malloc_inbuffer = buffer;
                })
                param)
              Encode.encode_close).0
            []
          ≡ ok []
    go false b c d e f = refl
    go true false c d e f = refl
    go true true false d e f = refl
    go true true true false e f = refl
    go true true true true false f = refl
    go true true true true true false = refl
    go true true true true true true = refl
