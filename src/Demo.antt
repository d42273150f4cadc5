-- ===== src/Demo.antt =====
-- src/simple_demo.c: the shortest client, with fixed parameters and all stages but the timestamp.
pub mod Same
mod Tests
use camkit.Base.{
  ℕ, zero, suc, ◌+◌, Bool, true, false, not, Option, none, some, List, [], ◌∷◌, ◌++◌, map, Outcome,
  ok, out_of_fuel, ◌>>=◌, ◌==◌, if◌then◌else◌, length,
}
use camkit.Pack.{Platform, Timeb, pack_put}
use camkit.Pack.Session.{drain}
use camkit.Network.{NetParam, udp}
use camkit.Tool.{Settings}
use camkit.Tool.Frame.{Parts, State, Captured, picture, again, failed, sent}

-- The parameters; those of the timestamp, the stage and the file are not used.
unfoldable pub demo_settings : (yuyv yuv420 : ℕ) (video0 serip : List ℕ) (serport : ℕ) → Settings
demo_settings yuyv yuv420 video0 serip serport = record {
  capp = record { dev_name = video0; width = 640; height = 480; pixfmt = yuyv; rate = 15 };
  cvtp = record {
    inwidth = 640;
    inheight = 480;
    inpixfmt = yuyv;
    outwidth = 640;
    outheight = 480;
    outpixfmt = yuv420;
  };
  encp = record {
    src_picwidth = 640;
    src_picheight = 480;
    enc_picwidth = 640;
    enc_picheight = 480;
    fps = 15;
    bitrate = 800;
    gop = 30;
    chroma_interleave = 0;
  };
  pacp = record { max_pkt_len = 1400; ssrc = 10 };
  netp = record { type = udp; serip = some serip; serport = some serport };
  tmsp = record { startx = 0; starty = 0; video_width = 640; factor = 0 };
  stage = 15;
  debug = false;
  outfile = none;
}

module _ {S : Type 0} (parts : Parts S) (pf : Platform) (clock : ℕ → Timeb) where
  -- `pack_put`, and `net_send` of what `pack_get` gives until it returns 0.
  unfoldable pub pack_and_send : State S → List ℕ → Outcome (State S)
  pack_and_send st bytes =
      drain pf clock (suc (length bytes)) st.tick (pack_put st.pachandle bytes (length bytes))
      >>= λ packed. ok (record st {
        pachandle = packed.0;
        tick = st.tick + length packed.1 + 1;
        outs = st.outs ++ map sent packed.1;
      })

  unfoldable pub send_headers : (fuel : ℕ) → State S → Outcome (State S)
  unfolding pack_and_send
  send_headers zero st = out_of_fuel
  send_headers (suc fuel) st = parts.encode_get_headers st.parts >>= λ fetched. elim fetched.1 [
    | none ↦ ok (record st { parts = fetched.0 })
    | some header ↦
        pack_and_send (record st { parts = fetched.0 }) header >>= λ st'. send_headers fuel st'
  ]

  -- From the converted picture on; the result tells whether the loop goes on.
  unfoldable pub encode_and_send : (fuel : ℕ) → State S → List ℕ → Outcome (State S × Bool)
  unfolding send_headers pack_and_send
  encode_and_send fuel st yuv = send_headers fuel st >>= λ headed.
      parts.encode_do headed.parts yuv >>= λ encoded. elim encoded.1 [
        | none ↦ ok (record headed { parts = encoded.0 }, false)
        | some frame ↦
            if length frame == 0
            then ok (record headed { parts = encoded.0 }, true)
            else (pack_and_send (record headed { parts = encoded.0 }) frame >>= λ done.
                ok (done, true))
      ]

  -- The body of `while (1)`.
  unfoldable pub demo_frame : (fuel : ℕ) → State S → Outcome (State S × Bool)
  unfolding encode_and_send
  demo_frame fuel st = parts.capture_get_data st.parts >>= λ got. elim got.1 [
    | failed ↦ ok (record st { parts = got.0 }, false)
    | again ↦ ok (record st { parts = got.0 }, true)
    | picture captured ↦
        if length captured == 0
        then ok (record st { parts = got.0 }, true)
        else (parts.convert_do got.0 captured >>= λ converted. elim converted.1 [
          | none ↦ ok (record st { parts = converted.0 }, false)
          | some yuv ↦
              if length yuv == 0
              then ok (record st { parts = converted.0 }, true)
              else encode_and_send fuel (record st { parts = converted.0 }) yuv
        ])
  ]
