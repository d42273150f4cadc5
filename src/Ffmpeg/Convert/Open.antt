-- ===== src/Ffmpeg/Convert/Open.antt =====
-- `convert_open` and `convert_close` of src/ffmpeg_convert.c.
use camkit.Base.{ℕ, Bool, not, Option, none, some, [], if◌then◌else◌}
use camkit.Base.Resources.{Run, acquire, release, result, ◌>>=◌, ◌>>◌}
use camkit.Convert.{CvtParam}
use camkit.Ffmpeg.Convert.{AvFormat, V4lFormats, CvtHandle, v4l_fmt2av_fmt}

-- What `convert_open` takes.
pub data Resource : Type 0 where
  handle_memory sws_ctx src_frame src_buffer dst_frame dst_buffer : Resource

unfoldable pub Resource-discrete : Discrete Resource
Resource-discrete = hlevel

-- Whether each call gives something: `malloc`, `sws_getContext`, `av_frame_alloc` and `av_malloc`.
pub record Answers : Type 0 where
  pub malloc_handle : Bool
  pub get_context : Bool
  pub alloc_src_frame : Bool
  pub malloc_src : Bool
  pub alloc_dst_frame : Bool
  pub malloc_dst : Bool

-- The labels at the end of `convert_open`: each falls through to the next.
abbrev Failed : Type 0
Failed = Run Resource (Option CvtHandle)

abbrev err0 : Failed
err0 = release handle_memory >> result none

abbrev err1 : Failed
err1 = release sws_ctx >> err0

abbrev err2 : Failed
err2 = release src_frame >> err1

abbrev err3 : Failed
err3 = release src_buffer >> err2

abbrev err4 : Failed
err4 = release dst_frame >> err3

module _ (v4l : V4lFormats) (avpicture_get_size : AvFormat → (width height : ℕ) → ℕ) where
  abbrev opened : CvtParam → CvtHandle
  opened param = record {
    src_buffer = [];
    src_buffersize =
        avpicture_get_size (v4l_fmt2av_fmt v4l param.inpixfmt) param.inwidth param.inheight;
    dst_buffersize =
        avpicture_get_size (v4l_fmt2av_fmt v4l param.outpixfmt) param.outwidth param.outheight;
    inavfmt = v4l_fmt2av_fmt v4l param.inpixfmt;
    outavfmt = v4l_fmt2av_fmt v4l param.outpixfmt;
    params = param;
  }

  unfoldable pub convert_open : Answers → CvtParam → Run Resource (Option CvtHandle)
  convert_open a param = do
    handle ← acquire handle_memory a.malloc_handle
    if not handle then result none else do
      context ← acquire sws_ctx a.get_context
      if not context then err0 else do
        src ← acquire src_frame a.alloc_src_frame
        if not src then err1 else do
          src_buf ← acquire src_buffer a.malloc_src
          if not src_buf then err2 else do
            dst ← acquire dst_frame a.alloc_dst_frame
            if not dst then err3 else do
              dst_buf ← acquire dst_buffer a.malloc_dst
              if not dst_buf then err4 else result (some (opened param))

unfoldable pub convert_close : CvtHandle → Run Resource (Unit {0})
convert_close handle = do
  release dst_buffer
  release dst_frame
  release src_buffer
  release src_frame
  release sws_ctx
  release handle_memory
