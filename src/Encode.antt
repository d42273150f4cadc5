-- ===== src/Encode.antt =====
-- src/vpu_encode.c: when it gives the headers of the stream, how it encodes a frame, and the
-- parameters that change while it runs. The VPU library is a parameter: what its calls return.
pub mod Client
pub mod Headers
pub mod Frames
pub mod Pool
pub mod Memory
pub mod Frees
pub mod Allocate
pub mod Open
pub mod Balance
pub mod Size
mod Tests
mod OpenTests
use camkit.Base.{
  ℕ, zero, suc, ◌+◌, ◌%◌, ◌^◌, Bool, true, false, Option, none, some, List, [], ◌∷◌, Outcome, ok,
  fault, aborted, out_of_fuel, require, ◌>>=◌, ◌>>◌, ◌==◌, leb, ltb, not, ◌&&◌, if◌then◌else◌,
  length, take,
}

-- `enum pic_t`
pub data PicType : Type 0 where
  none_pic sps pps i_pic p_pic b_pic : PicType

-- The fields of `struct enc_handle` that these functions use. `frame_memory` is the memory at
-- `y_addr`, and `image_size` stands for `pfbpool[src_fbid]->desc.size`.
pub record EncHandle : Type 0 where
  pub frame_counter : ℕ
  pub gop_offset_counter : ℕ
  pub yuv420_imgsize : ℕ
  pub image_size : ℕ
  pub frame_memory : List ℕ
  pub mvc_extension : Bool
  pub force_i_picture : Bool
  pub gop : ℕ
  pub bitrate : ℕ
  pub fps : ℕ

-- The static variables of `encode_get_headers`, which all handles share: 0 SPS, 1 MVC SPS, 2 PPS,
-- 3 MVC PPS.
pub record Stages : Type 0 where
  pub next_stage : ℕ
  pub stage_end : Bool

-- The stage taken, with the type of its header; `none` is a stage that is none of these.
unfoldable pub header_stage : (mvc_extension : Bool) → ℕ → Stages × Option PicType
header_stage mvc_extension stage =
    if stage == 0
    then (record { next_stage = if mvc_extension then 1 else 2; stage_end = false }, some sps)
    else if stage == 1
    then (record { next_stage = 2; stage_end = false }, some sps)
    else if stage == 2
    then (
      (if mvc_extension
          then record { next_stage = 3; stage_end = false }
          else record { next_stage = 0; stage_end = true }),
      some pps,
    )
    else if stage == 3
    then (record { next_stage = 0; stage_end = true }, some pps)
    else (record { next_stage = stage; stage_end = false }, none)

-- `none` stands for the return value 0; a header comes with the type that `*type` has then.
unfoldable pub next_header :
    (at_group mvc_extension : Bool) → Stages → PicType → Stages × Option PicType
unfolding header_stage
next_header at_group mvc_extension stages type =
    let taken = header_stage mvc_extension stages.next_stage in
    if not at_group
    then (stages, none)
    else if stages.stage_end
    then (record { next_stage = stages.next_stage; stage_end = false }, none)
    else (taken.0, some (elim taken.1 [ none ↦ type | some t ↦ t ]))

unfoldable pub encode_get_headers : EncHandle → Stages → PicType → Stages × Option PicType
unfolding next_header
encode_get_headers handle = next_header (handle.gop_offset_counter == 0) handle.mvc_extension

-- What `vpu_EncGetOutputInfo` gives.
pub record EncOutputInfo : Type 0 where
  pub pic_type : ℕ
  pub bitstream_size : ℕ

-- The answers of the VPU in one call of `encode_do`: whether the frame starts, whether it is busy
-- at each poll, and the output.
pub record Vpu : Type 0 where
  pub started : Bool
  pub is_busy : ℕ → Bool
  pub info : Option EncOutputInfo

unfoldable pub encode_fill_data : EncHandle → List ℕ → (len : ℕ) → Outcome EncHandle
encode_fill_data handle buf len = do
  require ((handle.yuv420_imgsize == handle.image_size) && leb handle.yuv420_imgsize len)
  if leb handle.yuv420_imgsize (length buf)
      then ok (record handle { frame_memory = take handle.yuv420_imgsize buf })
      else fault

-- The loop that waits for the VPU; `false` is the return after the poll with `loop_id` 20.
unfoldable pub wait_for_vpu : (is_busy : ℕ → Bool) → (fuel loop_id : ℕ) → Outcome Bool
wait_for_vpu busy zero loop_id = out_of_fuel
wait_for_vpu busy (suc fuel) loop_id =
    let rest = wait_for_vpu busy fuel (loop_id + 1) in
    if busy loop_id then (if loop_id == 20 then ok false else rest) else ok true

abbrev pub picture_type : ℕ → PicType
picture_type t =
    if t == 0 then i_pic else if t == 1 then p_pic else if t == 3 then b_pic else none_pic

-- The counters after an encoded frame; `frame_counter`, an `unsigned long`, has 32 bits on the boards
-- with this VPU.
unfoldable pub count_frame : EncHandle → EncHandle
count_frame handle = record handle {
  frame_counter = (handle.frame_counter + 1) % 2 ^ 32;
  gop_offset_counter =
      if leb handle.gop (handle.gop_offset_counter + 1) then 0 else handle.gop_offset_counter + 1;
}

-- `none` stands for the return value -1; otherwise the type and the size of the output.
unfoldable pub encode_do :
    Vpu → EncHandle → (ibuf : List ℕ) → (ilen : ℕ) → Outcome (EncHandle × Option (PicType × ℕ))
unfolding encode_fill_data wait_for_vpu count_frame
encode_do vpu handle ibuf ilen = do
  filled ← encode_fill_data handle ibuf ilen
  let reset = record filled { force_i_picture = false }
  if vpu.started
      then (do
        done ← wait_for_vpu vpu.is_busy 21 0
        if done
            then elim vpu.info [
              | none ↦ ok (reset, none)
              | some info ↦
                  ok (count_frame reset, some (picture_type info.pic_type, info.bitstream_size))
            ]
            else ok (reset, none))
      else ok (reset, none)

abbrev pub encode_force_ipic : EncHandle → EncHandle
encode_force_ipic handle = record handle { force_i_picture = true; gop_offset_counter = 0 }

-- The command's success is an argument; the result tells 0 from -1.
abbrev pub encode_set_gop : (accepted : Bool) → EncHandle → ℕ → EncHandle × Bool
encode_set_gop true handle val = (record handle { gop = val }, true)
encode_set_gop false handle val = (handle, false)

abbrev pub encode_set_bitrate : (accepted : Bool) → EncHandle → ℕ → EncHandle × Bool
encode_set_bitrate true handle val = (record handle { bitrate = val }, true)
encode_set_bitrate false handle val = (handle, false)

abbrev pub encode_set_framerate : (accepted : Bool) → EncHandle → ℕ → EncHandle × Bool
encode_set_framerate true handle val = (record handle { fps = val }, true)
encode_set_framerate false handle val = (handle, false)
