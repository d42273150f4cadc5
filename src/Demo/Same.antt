-- ===== src/Demo/Same.antt =====
-- src/simple_demo.c does what src/cktool.c does in stage 15 where no timestamp is drawn.
use camkit.Base.{
  ℕ, zero, suc, ◌≡◌, refl, ap, Bool, true, false, none, some, List, ok, ◌>>=◌, ◌==◌, if◌then◌else◌,
  length,
}
use mathlib.Core.Path.{fun_ext}
use camkit.Pack.{Platform, Timeb}
use camkit.Tool.Frame.{
  Parts, State, Setup, picture, again, failed, has_bit, put_packets, emit, emit_headers,
  encode_picture, convert_picture, one_frame,
}
use camkit.Demo.{pack_and_send, send_headers, encode_and_send, demo_frame}

-- With the timestamp not drawn.
abbrev pub undrawn : {S : Type 0} → Parts S → Parts S
undrawn parts = record parts { timestamp_draw = λ s bytes. ok bytes }

abbrev pub all_stages : (outfd : Bool) → Setup
all_stages outfd = record { stage = 15; outfd = outfd; no_convert = false }

module _ {S : Type 0} (parts : Parts S) (pf : Platform) (clock : ℕ → Timeb) (outfd : Bool) where
  headers_same :
      (fuel : ℕ) (st : State S)
      → send_headers parts pf clock fuel st
        ≡ emit_headers (undrawn parts) pf clock (all_stages outfd) fuel st
  unfolding send_headers emit_headers pack_and_send emit put_packets has_bit
  headers_same zero st = refl
  headers_same (suc fuel) st =
      ap
        (λ loop. parts.encode_get_headers st.parts >>= λ fetched. elim fetched.1 [
          | none ↦ ok (record st { parts = fetched.0 })
          | some header ↦
              pack_and_send parts pf clock (record st { parts = fetched.0 }) header >>= loop
        ])
        (fun_ext (headers_same fuel))

  encode_same :
      (fuel : ℕ) (st : State S) (yuv : List ℕ)
      → encode_and_send parts pf clock fuel st yuv
        ≡ encode_picture (undrawn parts) pf clock (all_stages outfd) fuel st yuv
  unfolding encode_and_send encode_picture pack_and_send emit put_packets has_bit
  encode_same fuel st yuv =
      ap
        (λ headed. headed >>= λ h. parts.encode_do h.parts yuv >>= λ encoded. elim encoded.1 [
          | none ↦ ok (record h { parts = encoded.0 }, false)
          | some frame ↦
              if length frame == 0
              then ok (record h { parts = encoded.0 }, true)
              else (pack_and_send parts pf clock (record h { parts = encoded.0 }) frame >>= λ done.
                  ok (done, true))
        ])
        (headers_same fuel st)

  -- For any parts, clock and fuel, and whatever the parts give, fail or do, a turn of the demo's loop
  -- is a turn of the tool's loop in stage 15 with a timestamp that draws nothing: the same state, the
  -- same packets sent, the same decision to go on, and the same fault or abort.
  pub demo_frame-one_frame :
      (fuel : ℕ) (st : State S)
      → demo_frame parts pf clock fuel st
        ≡ one_frame (undrawn parts) pf clock (all_stages outfd) fuel st
  unfolding demo_frame one_frame convert_picture has_bit
  demo_frame-one_frame fuel st =
      ap
        (λ go_on. parts.capture_get_data st.parts >>= λ got. elim got.1 [
          | failed ↦ ok (record st { parts = got.0 }, false)
          | again ↦ ok (record st { parts = got.0 }, true)
          | picture captured ↦
              if length captured == 0
              then ok (record st { parts = got.0 }, true)
              else (parts.convert_do got.0 captured >>= λ converted. elim converted.1 [
                | none ↦ ok (record st { parts = converted.0 }, false)
                | some yuv ↦
                    if length yuv == 0
                    then ok (record st { parts = converted.0 }, true)
                    else go_on (record st { parts = converted.0 }) yuv
              ])
        ])
        (fun_ext (λ s. fun_ext (encode_same fuel s)))
