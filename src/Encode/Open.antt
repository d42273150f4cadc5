-- ===== src/Encode/Open.antt =====
-- `encode_open` and `encode_close` of src/vpu_encode.c.
use camkit.Base.{
  ℕ, suc, ◌*◌, ◌/◌, ◌^◌, leb, Outcome, ok, fault, Bool, false, not, Option, none, some, [], ltb,
  ◌==◌, if◌then◌else◌, length,
}
use camkit.Base.Int.{ℤ, pos, negsuc}
use camkit.Base.Resources.{Run, undefined_behaviour, acquire, hold, release, result, ◌>>=◌, ◌>>◌}
use camkit.Ffmpeg.Encode.{EncParam}
use camkit.Encode.{EncHandle}
use camkit.Encode.Memory.{
  Resource, handle_memory, vpu, stream_phys, stream_virt, encoder, MyFrameBuf, VirtMem, minus_one,
  null, mapped, AllFrames, FrameAnswers, encoder_allocate_framebuffer, encoder_free_framebuffer,
}

-- Whether each call succeeds, and what `IOGetVirtMem` gives; `initial_info` is what `vpu_EncGetInitialInfo` gives, the least number
-- of frame buffers.
pub record Answers : Type 0 where
  pub malloc_handle : Bool
  pub vpu_init : Bool
  pub version : Bool
  pub get_phy_mem : Bool
  pub get_virt_mem : VirtMem
  pub enc_open : Bool
  pub initial_info : Option ℕ
  pub frames : FrameAnswers

-- The least number of frame buffers; `none` stands for -1.
abbrev pub get_initinfo : Answers → Option ℕ
get_initinfo a = a.initial_info

-- The fields of `EncOpenParam` that depend on the parameters; the others are constants.
pub record EncOpenParam : Type 0 where
  pub pic_width : ℕ
  pub pic_height : ℕ
  pub frame_rate_info : ℕ
  pub bit_rate : ℕ
  pub gop_size : ℕ
  pub chroma_interleave : ℕ

abbrev pub open_param : EncParam → EncOpenParam
open_param param = record {
  pic_width = param.enc_picwidth;
  pic_height = param.enc_picheight;
  frame_rate_info = param.fps;
  bit_rate = param.bitrate;
  gop_size = param.gop;
  chroma_interleave = param.chroma_interleave;
}

-- What `prepare_encode` sets.
pub record Prepared : Type 0 where
  pub handle : EncHandle
  pub y_addr : ℕ
  pub quant_param : ℤ

-- The handle, and its frame buffers.
abbrev pub Opened : Type 0
Opened = Prepared × AllFrames

-- What `prepare_encode` sets from the parameters and the source's frame buffer.
abbrev pub prepared_of : EncParam → MyFrameBuf → Prepared
prepared_of param source = record {
  handle = record {
    frame_counter = 0;
    gop_offset_counter = 0;
    yuv420_imgsize = param.src_picwidth * param.src_picheight * 3 / 2;
    image_size = source.size;
    frame_memory = [];
    mvc_extension = false;
    force_i_picture = false;
    gop = param.gop;
    bitrate = param.bitrate;
    fps = param.fps;
  };
  y_addr = source.virt_uaddr;
  quant_param = pos 23;
}

-- `none` stands for -1. `y_size` and `y_size * 3` are of type `int`, whose overflow is undefined.
unfoldable pub prepare_encode : EncParam → AllFrames → Outcome (Option Prepared)
prepare_encode param made =
    if not (param.src_picwidth == made.1.stride_y)
    then ok none
    else if leb (2 ^ 31) (param.src_picwidth * param.src_picheight * 3)
    then fault
    else if ltb param.src_picwidth param.enc_picwidth
    then ok none
    else if ltb param.src_picheight param.enc_picheight
    then ok none
    else ok (some (prepared_of param made.1))

-- `val` is an `int`.
unfoldable pub encode_set_qp : Prepared → (val : ℤ) → Prepared
encode_set_qp p (pos n) = record p { quant_param = if ltb 51 n then pos 51 else pos n }
encode_set_qp p (negsuc n) = record p { quant_param = pos 0 }

abbrev pub Opening : Type 0
Opening = Run Resource (Option Opened)

-- The labels.
abbrev pub err1 : Opening
err1 = release handle_memory >> result none

abbrev pub err2 : Opening
err2 = release encoder >> err1

-- After `prepare_encode`.
unfoldable pub prepared : AllFrames → Outcome (Option Prepared) → Opening
prepared made (ok none) = err2
prepared made (ok (some p)) = result (some (p, made))
prepared made _ = undefined_behaviour none

-- After `encoder_allocate_framebuffer`.
unfoldable pub prepare : EncParam → Option AllFrames → Opening
unfolding prepare_encode prepared
prepare param none = err2
prepare param (some made) = prepared made (prepare_encode param made)

-- From `get_initinfo` on.
unfoldable pub with_info : FrameAnswers → EncParam → Option ℕ → Opening
unfolding encoder_allocate_framebuffer prepare
with_info a param none = err2
with_info a param (some count) = encoder_allocate_framebuffer a param count false >>= prepare param

-- From `vpu_EncOpen` on.
unfoldable pub with_encoder : Answers → EncParam → Opening
unfolding with_info
with_encoder a param = acquire encoder a.enc_open >>= λ opened.
    if not opened then err1 else with_info a.frames param (get_initinfo a)

-- `virt_bsbuf_addr <= 0`: the field is a `U32` and holds 2 ^ 32 - 1 for -1, so that `encode_open` goes on
-- without a mapping.
unfoldable pub map_stream : Answers → EncParam → Opening
unfolding with_encoder
map_stream a param = elim a.get_virt_mem [
  | null ↦ release stream_phys >> result none
  | minus_one ↦ with_encoder a param
  | mapped address ↦ hold stream_virt >> with_encoder a param
]

unfoldable pub encode_open : Answers → EncParam → Opening
unfolding map_stream
encode_open a param = do
  memory ← acquire handle_memory a.malloc_handle
  if not memory then result none else (do
    initialised ← acquire vpu a.vpu_init
    if not initialised
        then result none
        else if not a.version
        then (release vpu >> result none)
        else (do
          phys ← acquire stream_phys a.get_phy_mem
          if not phys then result none else map_stream a param))

-- A second `vpu_EncClose` after a frame that was not complete closes the same instance.
unfoldable pub encode_close : Opened → Run Resource (Unit {0})
unfolding encoder_free_framebuffer
encode_close opened = do
  encoder_free_framebuffer (suc (length opened.1.0))
  release encoder
  release stream_virt
  release stream_phys
  release vpu
  release handle_memory
