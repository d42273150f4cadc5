-- ===== src/Omx.antt =====
-- src/omx_encode.c: encodes on a Raspberry Pi through OpenMAX. The library is a parameter: what its
-- calls answer.
pub mod Open
pub mod Balance
pub mod Combine
mod Tests
use camkit.Base.{
  ℕ, ◌+◌, ◌*◌, ◌%◌, ◌^◌, Bool, true, false, not, ◌&&◌, ◌||◌, Option, none, some, List, [], ◌∷◌,
  ◌++◌, Outcome, ok, fault, out_of_fuel, ◌>>=◌, leb, ltb, ◌==◌, if◌then◌else◌, length,
}
use camkit.Encode.{PicType, none_pic}
use camkit.Ffmpeg.Encode.{EncParam}
use camkit.Pack.Buffer.{read_bytes}

abbrev pub max_size_combination_buffer : ℕ
max_size_combination_buffer = 128 * 1024

-- The filled part of `combination_buffer` is kept for all of it, so that `combination_buffer_ptr` is
-- its length.
pub record EncHandle : Type 0 where
  pub combination_buffer : List ℕ
  pub frame_counter : ℕ
  pub params : EncParam

-- A buffer that `OMX_FillThisBuffer` has filled: the first `nFilledLen` bytes at `pBuffer`, and
-- `nFlags`, the flags `OMX_BUFFERFLAG_CODECCONFIG` and `OMX_BUFFERFLAG_ENDOFFRAME` and whether any
-- other is set.
pub record OutBuffer : Type 0 where
  pub filled : List ℕ
  pub codec_config : Bool
  pub end_of_frame : Bool
  pub other_flags : Bool

-- `nFlags == 0 && nFilledLen == 0`
abbrev pub is_nothing : OutBuffer → Bool
is_nothing out =
    not (out.codec_config || (out.end_of_frame || out.other_flags)) && (length out.filled == 0)

-- The end of a frame, and not of an SPS or a PPS.
abbrev pub ends_frame : OutBuffer → Bool
ends_frame out = not out.codec_config && out.end_of_frame

-- A copy into `combination_buffer` behind what it holds.
unfoldable pub append_part : List ℕ → OutBuffer → Outcome (List ℕ)
append_part buffer out =
    if leb (length buffer + length out.filled) max_size_combination_buffer
    then ok (buffer ++ out.filled)
    else fault

-- The loop that combines, over what the calls of `OMX_FillThisBuffer` give, `none` for an error. It
-- yields what is in the buffer and whether the loop was left by `break`. A list that runs out stands
-- for a call that does not return.
unfoldable pub combine : List (Option OutBuffer) → List ℕ → Outcome (List ℕ × Bool)
unfolding append_part
combine [] buffer = out_of_fuel
combine (none ∷ outs) buffer = ok (buffer, false)
combine (some out ∷ outs) buffer =
    let stop = append_part buffer out >>= λ b. ok (b, true) in
    let rest = append_part buffer out >>= λ b. combine outs b in
    if is_nothing out then ok (buffer, true) else if ends_frame out then stop else rest

-- What one call of `encode_do` meets: the input buffer, its size if there is one; whether
-- `OMX_EmptyThisBuffer` takes it; whether there is an output buffer; the fills.
pub record Answers : Type 0 where
  pub input_buffer : Option ℕ
  pub emptied : Bool
  pub output_buffer : Bool
  pub fills : List (Option OutBuffer)

-- What `encode_do` gives: -1, 0 with `*pobuf` null, or 0 with `*polen` bytes at `*pobuf`. `*type` is
-- `NONE` in each case.
pub data Encoded : Type 0 where
  failed nothing : Encoded
  output : List ℕ → Encoded

-- The first part: whether it goes on to the output. A memory block copied to the input buffer must
-- fit.
unfoldable pub feed : Answers → (ibuf : List ℕ) → (ilen : ℕ) → Outcome Bool
feed a ibuf ilen = elim a.input_buffer [
  | none ↦ ok true
  | some size ↦
      if leb ilen size then (read_bytes ibuf 0 ilen >>= λ picture. ok a.emptied) else fault
]

-- `frame_counter`, an `unsigned long`, has 32 bits on the boards with OpenMAX.
abbrev pub counted : EncHandle → EncHandle
counted handle = record handle { frame_counter = (handle.frame_counter + 1) % 2 ^ 32 }

unfoldable pub take_output : List (Option OutBuffer) → EncHandle → Outcome (EncHandle × Encoded)
unfolding combine append_part
take_output [] handle = out_of_fuel
take_output (none ∷ outs) handle = ok (handle, failed)
take_output (some out ∷ outs) handle =
    if is_nothing out
    then ok (handle, nothing)
    else if ends_frame out
    then ok (counted handle, output out.filled)
    else (append_part [] out >>= λ first. combine outs first >>= λ c.
        let after = record handle { combination_buffer = c.0 } in
        if c.1 then ok (counted after, output c.0) else ok (after, failed))

unfoldable pub encode_do :
    Answers → EncHandle → (ibuf : List ℕ) → (ilen : ℕ) → Outcome (EncHandle × Encoded)
unfolding feed take_output
encode_do a handle ibuf ilen = feed a ibuf ilen >>= λ fed.
    if not fed
    then ok (handle, failed)
    else if not a.output_buffer
    then ok (handle, failed)
    else take_output a.fills handle

-- A placeholder in the source too: no headers.
abbrev pub encode_get_headers : EncHandle → Option (List ℕ) × PicType
encode_get_headers handle = (none, none_pic)

-- Both return -1.
abbrev pub encode_set_qp : EncHandle → ℕ → Bool
encode_set_qp handle val = false

abbrev pub encode_set_gop : EncHandle → ℕ → Bool
encode_set_gop handle val = false

-- What `OMX_SetConfig` is called with.
pub data Config : Type 0 where
  video_bitrate video_framerate : ℕ → Config
  request_i_frame : Config

abbrev pub encode_set_bitrate : (set_config : Config → Bool) → EncHandle → (val : ℕ) → Bool
encode_set_bitrate set_config handle val = set_config (video_bitrate (val * 1000 % 2 ^ 32))

abbrev pub encode_set_framerate : (set_config : Config → Bool) → EncHandle → (val : ℕ) → Bool
encode_set_framerate set_config handle val = set_config (video_framerate val)

-- The answer only decides what is printed.
abbrev pub encode_force_ipic : (set_config : Config → Bool) → EncHandle → Unit {0}
encode_force_ipic set_config handle = tt
