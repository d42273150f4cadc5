-- ===== src/Ffmpeg/Encode.antt =====
-- src/ffmpeg_encode.c: encodes with libx264 through libavcodec.
pub mod Open
use camkit.Base.{
  ℕ, ◌+◌, Bool, true, false, Option, none, some, List, [], Outcome, ok, require, ◌>>=◌, ◌>>◌, ◌==◌,
}
use camkit.Encode.{PicType, none_pic}
use camkit.Pack.Buffer.{read_bytes}

-- `struct enc_param`
pub record EncParam : Type 0 where
  pub src_picwidth : ℕ
  pub src_picheight : ℕ
  pub enc_picwidth : ℕ
  pub enc_picheight : ℕ
  pub fps : ℕ
  pub bitrate : ℕ
  pub gop : ℕ
  pub chroma_interleave : ℕ

-- The fields of `AVCodecContext` that are set; `time_base` is 1 / `fps`.
pub record CodecContext : Type 0 where
  pub bit_rate : ℕ
  pub width : ℕ
  pub height : ℕ
  pub fps : ℕ
  pub gop_size : ℕ
  pub max_b_frames : ℕ

-- The picture type that is asked of the encoder; 0 leaves it to the encoder.
pub data Asked : Type 0 where
  unset asked_i : Asked

-- `packet_size` is the size of what `packet` holds.
pub record EncHandle : Type 0 where
  pub ctx : CodecContext
  pub pts : ℕ
  pub pict_type : Asked
  pub key_frame : Bool
  pub inbuffer : List ℕ
  pub inbufsize : ℕ
  pub packet : List ℕ
  pub frame_counter : ℕ
  pub params : EncParam

-- What `avcodec_encode_video2` answers: an error, no output yet, or a packet with its picture type.
pub data Encoded : Type 0 where
  failed delayed : Encoded
  got_output : List ℕ → PicType → Encoded

-- `none` is the return value -1; otherwise `*pobuf` and `*type`. The encoder sees the handle as it is
-- when it is called.
unfoldable pub encode_do :
    (encode_video : EncHandle → Encoded)
    → EncHandle
    → (ibuf : List ℕ) → (ilen : ℕ) → Outcome (EncHandle × Option (List ℕ × PicType))
encode_do encode_video handle ibuf ilen = do
  require (handle.inbufsize == ilen)
  picture ← read_bytes ibuf 0 ilen
  let filled = record handle {
    packet = [];
    inbuffer = picture;
    pts = handle.frame_counter;
    frame_counter = handle.frame_counter + 1;
  }
  let done = record filled { pict_type = unset; key_frame = false }
  elim (encode_video filled) [
    | failed ↦ ok (done, none)
    | delayed ↦ ok (done, some ([], none_pic))
    | got_output packet type ↦ ok (record done { packet = packet }, some (packet, type))
  ]

-- A placeholder: there are no separate headers.
unfoldable pub encode_get_headers : EncHandle → Option PicType
encode_get_headers handle = none

abbrev pub encode_set_bitrate : EncHandle → ℕ → EncHandle
encode_set_bitrate handle val = record handle { ctx = record handle.ctx { bit_rate = val } }

abbrev pub encode_set_framerate : EncHandle → ℕ → EncHandle
encode_set_framerate handle val = record handle { ctx = record handle.ctx { fps = val } }

abbrev pub encode_force_ipic : EncHandle → EncHandle
encode_force_ipic handle = record handle { pict_type = asked_i; key_frame = true }
