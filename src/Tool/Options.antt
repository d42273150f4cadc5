-- ===== src/Tool/Options.antt =====
-- What the options of src/cktool.c keep.
use camkit.Base.{ℕ, ◌≡◌, refl, Option, none, some, List, [], ◌∷◌}
use camkit.Tool.{
  Settings, Opt, question, version, debug_on, stage, width, height, bitrate, fps, chroma, gop, port,
  capture_format, device, outfile, server, defaults, set_option, parse,
}

-- The parts agree on the size of a picture, the rate, and the format after the conversion.
abbrev pub SameWidth : Settings → Type 0
SameWidth s =
    (s.cvtp.inwidth ≡ s.capp.width)
    × (s.cvtp.outwidth ≡ s.capp.width)
    × (s.encp.src_picwidth ≡ s.capp.width)
    × (s.encp.enc_picwidth ≡ s.capp.width)
    × (s.tmsp.video_width ≡ s.capp.width)

abbrev pub SameHeight : Settings → Type 0
SameHeight s =
    (s.cvtp.inheight ≡ s.capp.height)
    × (s.cvtp.outheight ≡ s.capp.height)
    × (s.encp.src_picheight ≡ s.capp.height)
    × (s.encp.enc_picheight ≡ s.capp.height)

abbrev pub Agree : (yuv420 : ℕ) → Settings → Type 0
Agree yuv420 s =
    SameWidth s × SameHeight s × (s.encp.fps ≡ s.capp.rate) × (s.cvtp.outpixfmt ≡ yuv420)

module _ (yuyv yuv420 : ℕ) (video0 : List ℕ) where
  abbrev pub AgreeAfter : Option Settings → Type 0
  AgreeAfter none = Unit
  AgreeAfter (some s) = Agree yuv420 s

  set_option-AgreeAfter :
      (o : Opt) (s : Settings) → Agree yuv420 s → AgreeAfter (set_option yuyv yuv420 video0 o s)
  unfolding set_option
  set_option-AgreeAfter question s a = tt
  set_option-AgreeAfter version s a = tt
  set_option-AgreeAfter debug_on s a = a
  set_option-AgreeAfter (stage n) s a = a
  set_option-AgreeAfter (width n) s a = ((refl, refl, refl, refl, refl), a.1, a.2, a.3)
  set_option-AgreeAfter (height n) s a = (a.0, (refl, refl, refl, refl), a.2, a.3)
  set_option-AgreeAfter (bitrate n) s a = a
  set_option-AgreeAfter (fps n) s a = (a.0, a.1, refl, a.3)
  set_option-AgreeAfter (chroma n) s a = a
  set_option-AgreeAfter (gop n) s a = a
  set_option-AgreeAfter (port n) s a = a
  set_option-AgreeAfter (capture_format n) s a = a
  set_option-AgreeAfter (device name) s a = a
  set_option-AgreeAfter (outfile name) s a = a
  set_option-AgreeAfter (server ip) s a = a

  parse-from :
      (os : List Opt) (s : Settings) → Agree yuv420 s → AgreeAfter (parse yuyv yuv420 video0 os s)
  unfolding parse
  parse-from [] s a = a
  parse-from (o ∷ os) s a =
      go (set_option yuyv yuv420 video0 o s) (set_option-AgreeAfter o s a) (parse-from os)
    where
      go :
          (r : Option Settings)
          → AgreeAfter r
          → ((t : Settings) → Agree yuv420 t → AgreeAfter (parse yuyv yuv420 video0 os t))
          → AgreeAfter (elim r [ none ↦ none | some t ↦ parse yuyv yuv420 video0 os t ])
      go none h rest = tt
      go (some t) h rest = rest t h

  -- Whatever the options are, and in whatever order, the settings that the tool goes on with agree:
  -- the capture, the converter, the encoder and the timestamp on the width, the first three on the
  -- height, the capture and the encoder on the rate; and the converter gives YUV420.
  pub parse-AgreeAfter :
      (os : List Opt) → AgreeAfter (parse yuyv yuv420 video0 os (defaults yuyv yuv420 video0))
  unfolding defaults
  parse-AgreeAfter os =
      parse-from os (defaults yuyv yuv420 video0)
        ((refl, refl, refl, refl, refl), (refl, refl, refl, refl), refl, refl)
