-- ===== src/Ffmpeg/Encode/Open.antt =====
-- `encode_open` and `encode_close` of src/ffmpeg_encode.c.
use camkit.Base.{ℕ, ◌*◌, Bool, false, not, Option, none, some, [], if◌then◌else◌}
use camkit.Base.Resources.{Run, acquire, release, result, ◌>>=◌, ◌>>◌}
use camkit.Ffmpeg.Encode.{EncParam, CodecContext, EncHandle, unset}

pub data Resource : Type 0 where
  handle_memory context opened_codec frame inbuffer : Resource

unfoldable pub Resource-discrete : Discrete Resource
Resource-discrete = hlevel

pub record Answers : Type 0 where
  pub malloc_handle : Bool
  pub find_encoder : Bool
  pub alloc_context : Bool
  pub open_codec : Bool
  pub alloc_frame : Bool
  pub malloc_inbuffer : Bool

-- The labels at the end of `encode_open`.
abbrev Failed : Type 0
Failed = Run Resource (Option EncHandle)

abbrev err0 : Failed
err0 = release handle_memory >> result none

abbrev err1 : Failed
err1 = release context >> err0

abbrev err2 : Failed
err2 = release opened_codec >> err1

abbrev err3 : Failed
err3 = release frame >> err2

-- `avpicture_get_size(AV_PIX_FMT_YUV420P, width, height)`
module _ (avpicture_get_size : (width height : ℕ) → ℕ) where
  abbrev context_of : EncParam → CodecContext
  context_of param = record {
    bit_rate = param.bitrate * 1000;
    width = param.src_picwidth;
    height = param.src_picheight;
    fps = param.fps;
    gop_size = param.gop;
    max_b_frames = 1;
  }

  abbrev opened : EncParam → EncHandle
  opened param = record {
    ctx = context_of param;
    pts = 0;
    pict_type = unset;
    key_frame = false;
    inbuffer = [];
    inbufsize = avpicture_get_size param.src_picwidth param.src_picheight;
    packet = [];
    frame_counter = 0;
    params = param;
  }

  unfoldable pub encode_open : Answers → EncParam → Run Resource (Option EncHandle)
  encode_open a param = do
    memory ← acquire handle_memory a.malloc_handle
    if not memory then result none else if not a.find_encoder then err0 else do
      ctx ← acquire context a.alloc_context
      if not ctx then err0 else do
        codec ← acquire opened_codec a.open_codec
        if not codec then err1 else do
          picture ← acquire frame a.alloc_frame
          if not picture then err2 else do
            buffer ← acquire inbuffer a.malloc_inbuffer
            if not buffer then err3 else result (some (opened param))

unfoldable pub encode_close : EncHandle → Run Resource (Unit {0})
encode_close handle = do
  release inbuffer
  release frame
  release opened_codec
  release context
  release handle_memory
