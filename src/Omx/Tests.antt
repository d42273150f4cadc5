-- ===== src/Omx/Tests.antt =====
-- The theorems on src/omx_encode.c with an SPS, a PPS and a picture in two parts.
use camkit.Base.{ℕ, ◌≡◌, refl, true, false, some, List, [], ◌∷◌, ok, ◌>>=◌}
use camkit.Base.Resources.{replay, open_close}
use camkit.Ffmpeg.Encode.{EncParam}
use camkit.Omx.{EncHandle, OutBuffer, Answers, output, feed, encode_do}
use camkit.Omx.Combine.{seen, frame_of, encode_do-frame_of}
use camkit.Omx.Open as Open
use camkit.Omx.Balance.{left_allocated, encode_open-encode_close_omx}

abbrev param : EncParam
param = record {
  src_picwidth = 4;
  src_picheight = 2;
  enc_picwidth = 4;
  enc_picheight = 2;
  fps = 15;
  bitrate = 1000;
  gop = 12;
  chroma_interleave = 0;
}

abbrev part : List ℕ → OutBuffer
part bytes = record {
  filled = bytes;
  codec_config = false;
  end_of_frame = false;
  other_flags = false;
}

abbrev header : List ℕ → OutBuffer
header bytes = record {
  filled = bytes;
  codec_config = true;
  end_of_frame = true;
  other_flags = false;
}

abbrev last : OutBuffer
last = record { filled = 9 ∷ []; codec_config = false; end_of_frame = true; other_flags = false }

abbrev parts : List OutBuffer
parts = header (1 ∷ 2 ∷ []) ∷ header (3 ∷ []) ∷ part (4 ∷ 5 ∷ []) ∷ []

abbrev answers : Answers
answers = record {
  input_buffer = some 12;
  emptied = true;
  output_buffer = true;
  fills =
      some (header (1 ∷ 2 ∷ []))
      ∷ some (header (3 ∷ []))
      ∷ some (part (4 ∷ 5 ∷ []))
      ∷ some last
      ∷ [];
}

abbrev handle : EncHandle
handle = record { combination_buffer = []; frame_counter = 7; params = param }

abbrev picture : List ℕ
picture = 1 ∷ 1 ∷ 1 ∷ []

fed : feed answers picture 3 ≡ ok true
unfolding feed camkit.Pack.Buffer.read_bytes
fed = refl

encode_do-frame_of_example :
    (encode_do answers handle picture 3 >>= λ r. ok (seen r))
    ≡ (frame_of parts last >>= λ f. ok (output f, 8))
encode_do-frame_of_example =
    encode_do-frame_of answers handle picture 3 parts last [] fed refl refl
      ((refl, refl), ((refl, refl), ((refl, refl), tt))) refl refl

-- The output port cannot be enabled.
abbrev failing : Open.Answers
failing = record {
  malloc_handle = true;
  malloc_combination = true;
  ilclient_init = true;
  omx_init = true;
  create_component = true;
  get_input_port = true;
  set_input_port = true;
  set_output_format = true;
  set_bitrate = true;
  get_bitrate = true;
  set_inline_header = true;
  get_avc = true;
  set_avc = true;
  check_avc = true;
  idle = true;
  enable_input = true;
  enable_output = false;
  executing = true;
}

encode_open-encode_close_omx_example :
    replay Open.Resource-discrete
      (open_close (Open.encode_open failing param) Open.encode_close).0
      []
    ≡ ok (left_allocated failing (Open.encode_open failing param).1)
encode_open-encode_close_omx_example = encode_open-encode_close_omx failing param
