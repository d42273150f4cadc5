-- ===== src/Demo/Tests.antt =====
-- The theorem on src/simple_demo.c with parts that give a picture, no header and one unit.
use camkit.Base.{ℕ, ◌%◌, ◌^◌, ◌≡◌, Bool, true, false, none, some, [], ◌∷◌, ok}
use camkit.Pack.{Platform, Timeb, PacHandle, no_nalu, ilp32}
use camkit.Tool.Frame.{Parts, State, picture, one_frame}
use camkit.Demo.{demo_frame}
use camkit.Demo.Same.{undrawn, all_stages, demo_frame-one_frame}

abbrev parts : Parts Bool
parts = record {
  capture_get_data = λ s. ok (s, picture (8 ∷ 8 ∷ []));
  convert_do = λ s bytes. ok (s, some bytes);
  timestamp_draw = λ s bytes. ok bytes;
  encode_get_headers = λ s. ok (s, none);
  encode_do = λ s bytes. ok (true, some (0 ∷ 0 ∷ 1 ∷ 0x65 ∷ 5 ∷ []));
}

abbrev platform : Platform
platform = record { abi = ilp32; u32_of_double = λ x. x % 2 ^ 32 }

abbrev clock : ℕ → Timeb
clock n = record { time = 7; millitm = n }

abbrev packer : PacHandle
packer = record {
  inbuf = [];
  outbuf = [];
  outbuf_ptr = 0;
  next_nalu_ptr = none;
  inbuf_size = 0;
  fu_counter = 0;
  last_fu_size = 0;
  fu_index = 0;
  inbuf_complete = false;
  nalu_complete = false;
  nalu = no_nalu;
  seq_num = 0;
  ts_start_millisec = 7000;
  ts_current_sample = 0;
  params = record { max_pkt_len = 1400; ssrc = 10 };
}

abbrev start : State Bool
start = record { parts = false; pachandle = packer; tick = 0; outs = [] }

demo_frame-one_frame_example :
    demo_frame parts platform clock 5 start
    ≡ one_frame (undrawn parts) platform clock (all_stages false) 5 start
demo_frame-one_frame_example = demo_frame-one_frame parts platform clock false 5 start
