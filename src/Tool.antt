-- ===== src/Tool.antt =====
-- src/cktool.c: the command-line tool that joins the parts. Here its options; numbers that `atoi`
-- reads are not negative.
pub mod Options
pub mod Stages
pub mod Closes
pub mod Frame
pub mod Sends
mod Tests
use camkit.Base.{
  ℕ, zero, suc, ◌+◌, Bool, true, false, Option, none, some, List, [], ◌∷◌, ◌==◌, if◌then◌else◌,
}
use camkit.Capture.{CapParam}
use camkit.Convert.{CvtParam}
use camkit.Ffmpeg.Encode.{EncParam}
use camkit.Network.{NetParam, udp}
use camkit.Pack.{PacParam}
use camkit.Timestamp.Draw.{TmsParam}

-- The variables of `main` that the options set.
pub record Settings : Type 0 where
  pub capp : CapParam
  pub cvtp : CvtParam
  pub encp : EncParam
  pub pacp : PacParam
  pub netp : NetParam
  pub tmsp : TmsParam
  pub stage : ℕ
  pub debug : Bool
  pub outfile : Option (List ℕ)

-- What `getopt` gives, with the argument; it gives '?' for an option that it does not know, too.
pub data Opt : Type 0 where
  question version debug_on : Opt
  stage width height bitrate fps chroma gop port capture_format : ℕ → Opt
  device outfile server : List ℕ → Opt

-- The platform's numbers of the two pixel formats, and the name of the default device.
module _ (yuyv yuv420 : ℕ) (video0 : List ℕ) where
  unfoldable pub defaults : Settings
  defaults = record {
    capp = record { dev_name = video0; width = 640; height = 480; pixfmt = yuyv; rate = 15 };
    cvtp = record {
      inwidth = 640;
      inheight = 480;
      inpixfmt = yuyv;
      outwidth = 640;
      outheight = 480;
      outpixfmt = yuv420;
    };
    encp = record {
      src_picwidth = 640;
      src_picheight = 480;
      enc_picwidth = 640;
      enc_picheight = 480;
      fps = 15;
      bitrate = 1000;
      gop = 12;
      chroma_interleave = 0;
    };
    pacp = record { max_pkt_len = 1400; ssrc = 1234 };
    netp = record { type = udp; serip = none; serport = none };
    tmsp = record { startx = 10; starty = 10; video_width = 640; factor = 0 };
    stage = 3;
    debug = false;
    outfile = none;
  }

  -- The `switch`; `none` is a return from `main`.
  unfoldable pub set_option : Opt → Settings → Option Settings
  set_option question s = none
  set_option version s = none
  set_option debug_on s = some (record s { debug = true })
  set_option (stage n) s = some (record s { stage = n })
  set_option (device name) s = some (record s { capp = record s.capp { dev_name = name } })
  set_option (outfile name) s = some (record s { outfile = some name })
  set_option (server ip) s = some (record s { netp = record s.netp { serip = some ip } })
  set_option (port n) s = some (record s { netp = record s.netp { serport = some n } })
  set_option (capture_format n) s =
      some (record s { capp = record s.capp { pixfmt = if n == 1 then yuv420 else yuyv } })
  set_option (width n) s = some (record s {
    capp = record s.capp { width = n };
    cvtp = record s.cvtp { inwidth = n; outwidth = n };
    encp = record s.encp { src_picwidth = n; enc_picwidth = n };
    tmsp = record s.tmsp { video_width = n };
  })
  set_option (height n) s = some (record s {
    capp = record s.capp { height = n };
    cvtp = record s.cvtp { inheight = n; outheight = n };
    encp = record s.encp { src_picheight = n; enc_picheight = n };
  })
  set_option (bitrate n) s = some (record s { encp = record s.encp { bitrate = n } })
  set_option (fps n) s =
      some (record s { capp = record s.capp { rate = n }; encp = record s.encp { fps = n } })
  set_option (chroma n) s = some (record s { encp = record s.encp { chroma_interleave = n } })
  set_option (gop n) s = some (record s { encp = record s.encp { gop = n } })

  -- The loop over the options.
  unfoldable pub parse : List Opt → Settings → Option Settings
  unfolding set_option
  parse [] s = some s
  parse (o ∷ os) s = elim (set_option o s) [ none ↦ none | some s' ↦ parse os s' ]
