-- ===== src/Encode/OpenTests.antt =====
-- The theorems on the opening of src/vpu_encode.c with pictures of 16 by 16 and of 16 by 8 pixels.
use camkit.Base.{
  ℕ, ◌≡◌, refl, true, false, none, some, List, [], ok, aborted, ◌%◌, ◌==◌, ltb, if◌then◌else◌,
  arith, replicate, take,
}
use camkit.Base.Resources.{replay, open_close}
use camkit.Ffmpeg.Encode.{EncParam}
use camkit.Encode.{encode_fill_data}
use camkit.Encode.Memory.{
  Resource-discrete, FrameAnswers, minus_one, mapped, MyFrameBuf, frame_of, align16,
}
use camkit.Encode.Open.{Answers, prepared_of, prepare_encode, encode_open, encode_close}
use camkit.Encode.Balance.{left_of, left_behind, encode_open-encode_close_vpu}
use camkit.Encode.Size.{encode_fill_data-prepare_encode}

abbrev param : (height : ℕ) → EncParam
param height = record {
  src_picwidth = 16;
  src_picheight = height;
  enc_picwidth = 16;
  enc_picheight = height;
  fps = 15;
  bitrate = 1000;
  gop = 12;
  chroma_interleave = 0;
}

-- The fourth frame buffer has no physical memory.
abbrev frame_answers : FrameAnswers
frame_answers = record {
  calloc_fb = true;
  calloc_pool = true;
  get_phy_mem = λ i. if ltb i 3 then some 4096 else none;
  get_virt_mem = λ i. mapped 8192;
  virt_signed = false;
  register = true;
}

abbrev answers : Answers
answers = record {
  malloc_handle = true;
  vpu_init = true;
  version = true;
  get_phy_mem = true;
  get_virt_mem = mapped 4096;
  enc_open = true;
  initial_info = some 2;
  frames = frame_answers;
}

mapped_ne : (x : ℕ) → ¬ (mapped x ≡ minus_one)
mapped_ne x e = cc

encode_open-encode_close_vpu_example :
    replay Resource-discrete (open_close (encode_open answers (param 16)) encode_close).0 []
    ≡ ok (left_of (left_behind answers (param 16)) (encode_open answers (param 16)).1)
encode_open-encode_close_vpu_example =
    encode_open-encode_close_vpu answers (param 16) (mapped_ne 4096) (λ i. mapped_ne 8192)
      (omega arith)

-- A source's frame buffer of 16 by 16 pixels.
abbrev source : MyFrameBuf
source = frame_of 4096 8192 (align16 16) (align16 8)

prepared_8 : prepare_encode (param 8) ([], source) ≡ ok (some (prepared_of (param 8) source))
unfolding prepare_encode
prepared_8 = refl

abbrev picture : List ℕ
picture = replicate 192 7

-- 8 is not a multiple of 16.
encode_fill_data-prepare_encode_example :
    encode_fill_data (prepared_of (param 8) source).handle picture 192 ≡ (
      if 8 % 16 == 0
      then ok (record (prepared_of (param 8) source).handle { frame_memory = take 192 picture })
      else aborted)
encode_fill_data-prepare_encode_example =
    encode_fill_data-prepare_encode (param 8) [] 4096 8192 (prepared_of (param 8) source) picture
      192 prepared_8 (omega arith) (omega arith) (omega arith)
