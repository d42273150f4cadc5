-- ===== src/Omx/Open.antt =====
-- `encode_open` and `encode_close` of src/omx_encode.c.
use camkit.Base.{ℕ, ◌+◌, ◌-◌, ◌*◌, ◌%◌, ◌^◌, Bool, not, ◌&&◌, Option, none, some, [], if◌then◌else◌}
use camkit.Base.Resources.{Run, acquire, release, result, ◌>>=◌, ◌>>◌}
use camkit.Ffmpeg.Encode.{EncParam}
use camkit.Omx.{EncHandle}

-- `left_loaded` is the component's being in another state than `OMX_StateLoaded`.
pub data Resource : Type 0 where
  handle_memory combination_memory il_client omx component left_loaded input_port output_port :
      Resource

unfoldable pub Resource-discrete : Discrete Resource
Resource-discrete = hlevel

-- Whether each call succeeds, in the order of the calls.
pub record Answers : Type 0 where
  pub malloc_handle : Bool
  pub malloc_combination : Bool
  pub ilclient_init : Bool
  pub omx_init : Bool
  pub create_component : Bool
  pub get_input_port : Bool
  pub set_input_port : Bool
  pub set_output_format : Bool
  pub set_bitrate : Bool
  pub get_bitrate : Bool
  pub set_inline_header : Bool
  pub get_avc : Bool
  pub set_avc : Bool
  pub check_avc : Bool
  pub idle : Bool
  pub enable_input : Bool
  pub enable_output : Bool
  pub executing : Bool

-- The values of the parameters that `OMX_SetParameter` is called with, as 32-bit numbers.
pub record Settings : Type 0 where
  pub frame_width : ℕ
  pub frame_height : ℕ
  pub slice_height : ℕ
  pub stride : ℕ
  pub framerate : ℕ
  pub target_bitrate : ℕ
  pub p_frames : ℕ

abbrev pub settings_of : EncParam → Settings
settings_of param = record {
  frame_width = param.src_picwidth;
  frame_height = param.src_picheight;
  slice_height = param.src_picheight;
  stride = param.src_picwidth;
  framerate = param.fps * 2 ^ 16 % 2 ^ 32;
  target_bitrate = param.bitrate * 1000 % 2 ^ 32;
  p_frames = (param.gop + 2 ^ 32 - 1) % 2 ^ 32;
}

-- The labels at the end of `encode_open`.
abbrev Failed : Type 0
Failed = Run Resource (Option EncHandle)

abbrev err0 : Failed
err0 = release handle_memory >> result none

abbrev err1 : Failed
err1 = release il_client >> err0

abbrev err2 : Failed
err2 = release omx >> err1

abbrev err3 : Failed
err3 = release component >> err2

abbrev err4 : Failed
err4 = release left_loaded >> err3

abbrev err5 : Failed
err5 = release input_port >> err4

abbrev err6 : Failed
err6 = release output_port >> err5

-- The calls between the creation of the component and its state `OMX_StateIdle`. A failure of any
-- goes to the same label, and none takes anything.
abbrev pub configured : Answers → Bool
configured a =
    a.get_input_port
    && (a.set_input_port
        && (a.set_output_format
            && (a.set_bitrate
                && (a.get_bitrate
                    && (a.set_inline_header && (a.get_avc && (a.set_avc && a.check_avc)))))))

abbrev opened : EncParam → EncHandle
opened param = record { combination_buffer = []; frame_counter = 0; params = param }

-- From the creation of the component on.
unfoldable pub open_component : Answers → EncParam → Run Resource (Option EncHandle)
open_component a param = do
  created ← acquire component a.create_component
  if not created then err2 else if not (configured a) then err3 else (do
    idle ← acquire left_loaded a.idle
    if not idle then err3 else (do
      input ← acquire input_port a.enable_input
      if not input then err4 else (do
        output ← acquire output_port a.enable_output
        if not output
            then err5
            else if not a.executing
            then err6
            else result (some (opened param)))))

unfoldable pub encode_open : Answers → EncParam → Run Resource (Option EncHandle)
unfolding open_component
encode_open a param = do
  handle ← acquire handle_memory a.malloc_handle
  if not handle then result none else (do
    combination ← acquire combination_memory a.malloc_combination
    if not combination then err0 else (do
      client ← acquire il_client a.ilclient_init
      if not client then err0 else (do
        initialised ← acquire omx a.omx_init
        if not initialised then err1 else open_component a param)))

unfoldable pub encode_close : EncHandle → Run Resource (Unit {0})
encode_close handle = do
  release input_port
  release output_port
  release left_loaded
  release component
  release omx
  release il_client
  release combination_memory
  release handle_memory
