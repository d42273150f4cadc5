-- ===== src/Tool/Tests.antt =====
-- The theorems on src/cktool.c with an encoder that gives a sequence parameter set and a slice.
use camkit.Base.{
  ℕ, ◌%◌, ◌^◌, ◌≡◌, ◌≢◌, refl, Bool, true, false, Option, none, some, List, [], ◌∷◌, Outcome, ok,
  arith,
}
use camkit.Base.Resources.{replay}
use camkit.Pack.{Timeb, PacHandle, no_nalu}
use camkit.Pack.Stream.{IsNal}
use camkit.Pack.Correct.{ilp32_with}
use camkit.Network.{NetParam, udp}
use camkit.Tool.{width, fps, height, defaults, parse}
use camkit.Tool.Options.{AgreeAfter, parse-AgreeAfter}
use camkit.Tool.Stages as Stages
use camkit.Tool.Closes.{close_stages-open_stages}
use camkit.Tool.Frame.{Parts, State, picture, has_bit, main_loop}
use camkit.Tool.Sends.{
  Stream, bytes_of, setup, outs_with, no_more, one_more, Turn, over, turn, main_loop-outs_with,
}

parse-AgreeAfter_example :
    AgreeAfter 1 2 []
      (parse 1 2 [] (width 320 ∷ fps 30 ∷ height 240 ∷ width 160 ∷ []) (defaults 1 2 []))
parse-AgreeAfter_example =
    parse-AgreeAfter 1 2 [] (width 320 ∷ fps 30 ∷ height 240 ∷ width 160 ∷ [])

abbrev netp : NetParam
netp = record { type = udp; serip = some (1 ∷ []); serport = some 8000 }

abbrev answers : Stages.Answers
answers = record {
  fopen = true;
  capture_open = true;
  convert_open = true;
  encode_open = true;
  pack_open = true;
  net_open = true;
  timestamp_open = true;
}

opened : (Stages.open_parts answers netp 11).1 ≡ true
unfolding Stages.open_parts Stages.open_if Stages.open_network has_bit
opened = refl

close_stages-open_stages_example :
    replay Stages.Resource-discrete (Stages.open_and_close answers (some []) netp 11).0 [] ≡ ok []
close_stages-open_stages_example = close_stages-open_stages answers (some []) netp 11 opened

not_28 : (n : ℕ) → n ≡ 7 → n ≢ 28
not_28 n e t = omega arith

not_28_either : (n : ℕ) → n ≡ 5 → n ≢ 28
not_28_either n e t = omega arith

sps-IsNal : IsNal (record { long_code = true; header = 0x67; body = 5 ∷ [] })
sps-IsNal = record { byte = omega arith; not_fragment = not_28 7 refl; clean = refl }

slice-IsNal : IsNal (record { long_code = true; header = 0x65; body = 1 ∷ 2 ∷ 3 ∷ [] })
slice-IsNal = record { byte = omega arith; not_fragment = not_28_either 5 refl; clean = refl }

abbrev sps : Stream
sps = record {
  first = record { long_code = true; header = 0x67; body = 5 ∷ [] };
  others = [];
  clean = (sps-IsNal, tt);
}

abbrev slice : Stream
slice = record {
  first = record { long_code = true; header = 0x65; body = 1 ∷ 2 ∷ 3 ∷ [] };
  others = [];
  clean = (slice-IsNal, tt);
}

-- The state is whether a header is to come.
abbrev header_if : Bool → Outcome (Bool × Option (List ℕ))
header_if true = ok (false, some (bytes_of sps))
header_if false = ok (false, none)

abbrev parts : Parts Bool
parts = record {
  capture_get_data = λ s. ok (s, picture (8 ∷ 8 ∷ []));
  convert_do = λ s bytes. ok (s, some bytes);
  timestamp_draw = λ s bytes. ok bytes;
  encode_get_headers = header_if;
  encode_do = λ s bytes. ok (true, some (bytes_of slice));
}

abbrev clock : ℕ → Timeb
clock n = record { time = 7; millitm = n }

abbrev wrap : ℕ → ℕ
wrap x = x % 2 ^ 32

abbrev packer : PacHandle
packer = record {
  inbuf = [];
  outbuf = [];
  outbuf_ptr = 0;
  next_nalu_ptr = none;
  inbuf_size = 0;
  fu_counter = 0;
  last_fu_size = 0;
  fu_index = 0;
  inbuf_complete = false;
  nalu_complete = false;
  nalu = no_nalu;
  seq_num = 0;
  ts_start_millisec = 7000;
  ts_current_sample = 0;
  params = record { max_pkt_len = 1400; ssrc = 1234 };
}

first-Turn : Turn wrap clock parts false true (sps ∷ []) slice
first-Turn = record {
  s1 = true;
  s2 = true;
  s3 = false;
  s4 = true;
  captured = 8 ∷ 8 ∷ [];
  yuv = 8 ∷ 8 ∷ [];
  drawn = 8 ∷ 8 ∷ [];
  capture = refl;
  some_captured = refl;
  convert = refl;
  some_yuv = refl;
  draw = refl;
  fetch = one_more sps refl (no_more refl);
  encode = refl;
}

abbrev start : State Bool
start = record { parts = true; pachandle = packer; tick = 0; outs = [] }

main_loop-outs_with_example :
    (st : State Bool) × (main_loop parts (ilp32_with wrap) clock (setup false) 5 1 start ≡ ok st)
    × (st.outs ≡ outs_with wrap clock start (sps ∷ slice ∷ []))
main_loop-outs_with_example =
    main_loop-outs_with wrap clock parts false 5 1 start (sps ∷ slice ∷ [])
      (turn (sps ∷ []) slice first-Turn (omega arith) over) (omega arith)
