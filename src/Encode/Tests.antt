-- ===== src/Encode/Tests.antt =====
-- The theorems on src/vpu_encode.c with a group of two frames of 3 bytes.
use camkit.Base.{ℕ, ◌≡◌, refl, true, false, some, List, [], ◌∷◌, ok, arith, leb}
use camkit.Encode.{EncHandle, Vpu, sps, pps, i_pic}
use camkit.Encode.Client.{encode_frames, fetch_headers}
use camkit.Encode.Headers.{at_start, fetch_headers-round_of}
use camkit.Base.{none, ◌>>=◌, length}
use camkit.Encode.Pool.{
  FramePool, pointers, get_framebuf, put_framebuf, put_framebuf-get_framebuf,
  get_framebuf-put_framebuf,
}
use camkit.Encode.Frames.{Works, encode_frames-round_of}

abbrev handle : EncHandle
handle = record {
  frame_counter = 0;
  gop_offset_counter = 0;
  yuv420_imgsize = 3;
  image_size = 3;
  frame_memory = [];
  mvc_extension = false;
  force_i_picture = true;
  gop = 2;
  bitrate = 0;
  fps = 0;
}

fetch_headers-round_of_example :
    fetch_headers handle 5 at_start i_pic ≡ ok (at_start, sps ∷ pps ∷ [])
fetch_headers-round_of_example = fetch_headers-round_of handle i_pic

-- Busy at the first two polls.
abbrev vpu : Vpu
vpu = record {
  started = true;
  is_busy = λ k. leb k 1;
  info = some (record { pic_type = 0; bitstream_size = 9 });
}

vpu-Works : Works vpu
vpu-Works = record {
  started = refl;
  poll = 2;
  in_time = omega arith;
  idle = refl;
  output = record { pic_type = 0; bitstream_size = 9 };
  info = refl;
}

abbrev frame : List ℕ
frame = 1 ∷ 2 ∷ 3 ∷ []

encode_frames-round_of_example :
    (h' : EncHandle) × (encode_frames ((vpu, frame) ∷ (vpu, frame) ∷ []) handle at_start
      ≡ ok (h', at_start, (sps ∷ pps ∷ []) ∷ [] ∷ []))
    × (h'.gop_offset_counter ≡ 0)
    × (h'.frame_counter ≡ 2)
encode_frames-round_of_example =
    encode_frames-round_of vpu frame ((vpu, frame) ∷ []) handle refl refl refl
      (vpu-Works, omega arith, (vpu-Works, omega arith, tt))

-- The pool with 32 entries, the first of them taken.
abbrev one_taken : FramePool
one_taken = record { myfbarray = none ∷ pointers 1 31; myfb_index = 1 }

put_framebuf-get_framebuf_example :
    (get_framebuf one_taken >>= λ got. put_framebuf got.1 got.0) ≡ ok one_taken
put_framebuf-get_framebuf_example =
    put_framebuf-get_framebuf one_taken (some 1) refl (omega arith) refl

get_framebuf-put_framebuf_example :
    (after : FramePool) × ((put_framebuf one_taken (some 0) >>= get_framebuf) ≡ ok (some 0, after))
    × (after.myfb_index ≡ 1)
    × (length after.myfbarray ≡ 32)
get_framebuf-put_framebuf_example = get_framebuf-put_framebuf one_taken (some 0) refl (omega arith)
