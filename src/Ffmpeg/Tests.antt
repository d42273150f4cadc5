-- ===== src/Ffmpeg/Tests.antt =====
-- The theorems on src/ffmpeg_convert.c and src/ffmpeg_encode.c where the last calls fail.
use camkit.Base.{◌*◌, ◌≡◌, true, false, [], ok}
use camkit.Base.Resources.{replay, open_close}
use camkit.Convert.{CvtParam}
use camkit.Ffmpeg.Convert.{V4lFormats}
use camkit.Ffmpeg.Convert.Open as Convert
use camkit.Ffmpeg.Encode.{EncParam}
use camkit.Ffmpeg.Encode.Open as Encode
use camkit.Ffmpeg.Balance.{convert_open-convert_close_sws, encode_open-encode_close_avcodec}

abbrev formats : V4lFormats
formats = record { yuv420 = 0; yuyv = 1; rgb565 = 2; rgb24 = 3 }

abbrev cvt_param : CvtParam
cvt_param = record {
  inwidth = 4;
  inheight = 2;
  inpixfmt = 1;
  outwidth = 4;
  outheight = 2;
  outpixfmt = 0;
}

abbrev cvt_answers : Convert.Answers
cvt_answers = record {
  malloc_handle = true;
  get_context = true;
  alloc_src_frame = true;
  malloc_src = true;
  alloc_dst_frame = true;
  malloc_dst = false;
}

convert_open-convert_close_sws_example :
    replay Convert.Resource-discrete
      (open_close
        (Convert.convert_open formats (λ f w h. w * h * 2) cvt_answers cvt_param)
        Convert.convert_close).0
      []
    ≡ ok []
convert_open-convert_close_sws_example =
    convert_open-convert_close_sws formats (λ f w h. w * h * 2) cvt_answers cvt_param

abbrev enc_param : EncParam
enc_param = record {
  src_picwidth = 4;
  src_picheight = 2;
  enc_picwidth = 4;
  enc_picheight = 2;
  fps = 15;
  bitrate = 1000;
  gop = 12;
  chroma_interleave = 0;
}

abbrev enc_answers : Encode.Answers
enc_answers = record {
  malloc_handle = true;
  find_encoder = true;
  alloc_context = true;
  open_codec = true;
  alloc_frame = true;
  malloc_inbuffer = false;
}

encode_open-encode_close_avcodec_example :
    replay Encode.Resource-discrete
      (open_close (Encode.encode_open (λ w h. w * h) enc_answers enc_param) Encode.encode_close).0
      []
    ≡ ok []
encode_open-encode_close_avcodec_example =
    encode_open-encode_close_avcodec (λ w h. w * h) enc_answers enc_param
