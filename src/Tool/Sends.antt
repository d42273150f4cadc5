-- ===== src/Tool/Sends.antt =====
-- What src/cktool.c sends when it captures, converts, encodes, packs and sends (stage 15).
use camkit.Base.{
  ℕ, zero, suc, ◌+◌, ◌≤◌, ◌<◌, ◌≡◌, refl, sym, ap, ◌∙◌, Bool, true, false, none, some, List, [],
  ◌∷◌, ◌++◌, map, append_assoc, append-nil, ok, ◌>>=◌, ◌==◌, arith, length,
}
use camkit.Pack.{Timeb, PacHandle, PacParam, max_outbuf_size}
use camkit.Pack.Get.{sample_time}
use camkit.Pack.Stream.{start_code, NalUnit, annexb, AllNal}
use camkit.Pack.Spec.{seq_after, stream_packets}
use camkit.Pack.Correct.{ilp32_with, wanted, drain-kept}
use camkit.Tool.Frame.{
  Parts, State, Setup, Out, sent, picture, has_bit, put_packets, emit, emit_headers, encode_picture,
  convert_picture, one_frame, main_loop,
}

-- A buffer that the encoder gives: at least one unit.
pub record Stream : Type 0 where
  pub first : NalUnit
  pub others : List NalUnit
  pub clean : AllNal (first ∷ others)

abbrev pub bytes_of : Stream → List ℕ
bytes_of b = annexb (b.first ∷ b.others)

abbrev pub setup : (outfd : Bool) → Setup
setup outfd = record { stage = 15; outfd = outfd; no_convert = false }

map-append : {A B : Type 0} (f : A → B) (xs ys : List A) → map f (xs ++ ys) ≡ map f xs ++ map f ys
map-append f [] ys = refl
map-append f (x ∷ xs) ys = ap (λ t. f x ∷ t) (map-append f xs ys)

module _ (f : ℕ → ℕ) (clock : ℕ → Timeb) where
  -- The packets of the buffers, one after the other: the sequence numbers go on from buffer to
  -- buffer, and each buffer ends with a call of `pack_get` that gives none.
  abbrev pub packets_from : PacParam → (start tick seq : ℕ) → List Stream → List (List ℕ)
  packets_from p start tick seq [] = []
  packets_from p start tick seq (b ∷ bs) =
      let ps =
        stream_packets p.max_pkt_len p.ssrc (λ t. sample_time (ilp32_with f) (clock t) start) tick
          seq (b.first ∷ b.others) in
      ps ++ packets_from p start (tick + length ps + 1) (seq_after (length ps) seq) bs

  -- What has left the tool, and what is to leave it with the buffers.
  abbrev pub outs_with : {S : Type 0} → State S → List Stream → List Out
  outs_with st bs =
      let h = st.pachandle in
      st.outs ++ map sent (packets_from h.params h.ts_start_millisec st.tick h.seq_num bs)

  abbrev pub Fits : PacHandle → Type 0
  Fits h = (0 < h.params.max_pkt_len) × (h.params.max_pkt_len + 14 ≤ max_outbuf_size)

  module _ {S : Type 0} (parts : Parts S) (outfd : Bool) where
    emit-outs_with :
        (st : State S) (b : Stream)
        → Fits st.pachandle
        → (st' : State S) × (emit parts (ilp32_with f) clock (setup outfd) st (bytes_of b) ≡ ok st')
          × (st'.parts ≡ st.parts)
          × Fits st'.pachandle
          × ((bs : List Stream) → outs_with st' bs ≡ outs_with st (b ∷ bs))
    unfolding emit put_packets has_bit
    emit-outs_with st b fits =
        let h = st.pachandle in
        let ps = wanted f clock h b.first b.others st.tick in
        let (g, ran, complete, seq, same_params, same_start) =
          drain-kept f clock h b.first b.others (suc (length (bytes_of b))) st.tick b.clean fits.0
            fits.1 (omega arith) in
        (
          record st {
            pachandle = g;
            tick = st.tick + length ps + 1;
            outs = st.outs ++ map sent ps;
          },
          ap
              (λ o. o >>= λ packed. ok (record st {
                pachandle = packed.0;
                tick = st.tick + length packed.1 + 1;
                outs = st.outs ++ map sent packed.1;
              }))
              ran,
          refl,
          rw same_params fits,
          λ bs.
              let rest =
                packets_from h.params h.ts_start_millisec (st.tick + length ps + 1)
                  (seq_after (length ps) h.seq_num) bs in
              let e : packets_from g.params g.ts_start_millisec (st.tick + length ps + 1) g.seq_num
                    bs
                  ≡ rest =
                rw (same_params, same_start, seq) refl in
              rw e (
                append_assoc st.outs (map sent ps) (map sent rest)
                ∙ ap (λ t. st.outs ++ t) (sym (map-append sent ps rest))),
        )

    -- The encoder gives these headers, one to a call, and then none.
    pub data Headers : S → List Stream → S → Type 0 where
      no_more : {s s' : S} → parts.encode_get_headers s ≡ ok (s', none) → Headers s [] s'
      one_more :
          {s s1 s' : S} (b : Stream) {bs : List Stream}
          → parts.encode_get_headers s ≡ ok (s1, some (bytes_of b))
          → Headers s1 bs s'
          → Headers s (b ∷ bs) s'

    emit_headers-outs_with :
        {s : S} {bs : List Stream} {s' : S}
        → Headers s bs s'
        → (fuel : ℕ) (st : State S) → length bs < fuel
        → st.parts ≡ s
        → Fits st.pachandle
        → (st' : State S) × (emit_headers parts (ilp32_with f) clock (setup outfd) fuel st ≡ ok st')
          × (st'.parts ≡ s')
          × Fits st'.pachandle
          × ((more : List Stream) → outs_with st' more ≡ outs_with st (bs ++ more))
    unfolding emit_headers
    emit_headers-outs_with (no_more {s} {s'} e) zero st enough same fits = absurd (omega arith)
    emit_headers-outs_with (no_more {s} {s'} e) (suc fuel) st enough same fits =
        (record st { parts = s' }, rw (same, e, emit_headers) refl, refl, fits, λ more. refl)
    emit_headers-outs_with (one_more b e r) zero st enough same fits = absurd (omega arith)
    emit_headers-outs_with (one_more {s} {s1} {s'} b {bs} e r) (suc fuel) st enough same fits =
        let (st1, ran, at1, fits1, outs1) = emit-outs_with (record st { parts = s1 }) b fits in
        let (st', looped, at', fits', outs') =
          emit_headers-outs_with r fuel st1 (omega arith) at1 fits1 in
        (
          st',
          rw (same, e, ran, emit_headers) looped,
          at',
          fits',
          λ more. outs' more ∙ outs1 (bs ++ more),
        )

    -- What the parts do in one turn of the loop: a picture is captured, converted, drawn on, and
    -- encoded as `frame`, after the headers `headers`.
    pub record Turn (s0 : S) (headers : List Stream) (frame : Stream) : Type 0 where
      pub s1 : S
      pub s2 : S
      pub s3 : S
      pub s4 : S
      pub captured : List ℕ
      pub yuv : List ℕ
      pub drawn : List ℕ
      pub capture : parts.capture_get_data s0 ≡ ok (s1, picture captured)
      pub some_captured : (length captured == 0) ≡ false
      pub convert : parts.convert_do s1 captured ≡ ok (s2, some yuv)
      pub some_yuv : (length yuv == 0) ≡ false
      pub draw : parts.timestamp_draw s2 yuv ≡ ok drawn
      pub fetch : Headers s2 headers s3
      pub encode : parts.encode_do s3 drawn ≡ ok (s4, some (bytes_of frame))

    some_bytes : (b : Stream) → (length (bytes_of b) == 0) ≡ false
    some_bytes b = go b.first.long_code
      where
        go :
            (c : Bool)
            → (length (start_code c ++ (b.first.header ∷ (b.first.body ++ annexb b.others))) == 0)
              ≡ false
        go true = ground arith
        go false = ground arith

    one_frame-outs_with :
        (fuel : ℕ) (st : State S) (headers : List Stream) (frame : Stream)
        (t : Turn st.parts headers frame)
        → length headers < fuel
        → Fits st.pachandle
        → (st' : State S) × (one_frame parts (ilp32_with f) clock (setup outfd) fuel st
            ≡ ok (st', true))
          × (st'.parts ≡ t.s4)
          × Fits st'.pachandle
          × ((more : List Stream) → outs_with st' more ≡ outs_with st (headers ++ (frame ∷ more)))
    unfolding one_frame convert_picture encode_picture has_bit
    one_frame-outs_with fuel st headers frame t enough fits =
        let (sh, looped, at, fits_h, outs_h) =
          emit_headers-outs_with t.fetch fuel (record st { parts = t.s2 }) enough refl fits in
        let (st', ran, at', fits', outs') =
          emit-outs_with (record sh { parts = t.s4 }) frame fits_h in
        (
          st',
          rw
              (
                t.capture,
                t.some_captured,
                t.convert,
                t.some_yuv,
                t.draw,
                looped,
                at,
                t.encode,
                some_bytes frame,
                ran,
                one_frame,
                convert_picture,
                encode_picture,
                has_bit,
              )
              refl,
          at',
          fits',
          λ more. outs' more ∙ outs_h (frame ∷ more),
        )

    -- Turn after turn, each with fewer than `fuel` headers; the streams that the encoder gives.
    pub data Turns (fuel : ℕ) : S → (turns : ℕ) → List Stream → Type 0 where
      over : {s : S} → Turns fuel s 0 []
      turn :
          {s0 : S} {n : ℕ} {bs : List Stream} (headers : List Stream) (frame : Stream)
          (t : Turn s0 headers frame)
          → length headers < fuel
          → Turns fuel t.s4 n bs
          → Turns fuel s0 (suc n) (headers ++ (frame ∷ bs))

    main_loop-from :
        (fuel : ℕ) {s : S} {n : ℕ} {bs : List Stream}
        → Turns fuel s n bs
        → (st : State S) → st.parts ≡ s
        → Fits st.pachandle
        → (st' : State S) × (main_loop parts (ilp32_with f) clock (setup outfd) fuel n st ≡ ok st')
          × (st'.outs ≡ outs_with st bs)
    unfolding main_loop
    main_loop-from fuel over st same fits = (st, refl, sym (append-nil st.outs))
    main_loop-from fuel (turn {s0} {n} {bs} headers frame t enough rest) st same fits =
        let (st1, ran, at, fits1, outs1) =
          one_frame-outs_with fuel (record st { parts = s0 }) headers frame t enough fits in
        let (st', looped, outs') = main_loop-from fuel rest st1 at fits1 in
        let first : one_frame parts (ilp32_with f) clock (setup outfd) fuel st ≡ ok (st1, true) =
          ap
            (λ x. one_frame parts (ilp32_with f) clock (setup outfd) fuel (record st { parts = x }))
            same
          ∙ ran in
        (st', rw (first, main_loop) looped, outs' ∙ outs1 bs)

    -- Let `unsigned long` have 4 bytes. In stage 15, while the parts give in each turn headers and a
    -- frame that are well-formed streams, and no more headers than the fuel allows, the loop ends
    -- without fault or abort when `quit` is set. It has then sent exactly the packets of Pack/Spec of
    -- all the headers and frames, in order, with sequence numbers that go on from one to the next, and
    -- with a marker and a timestamp for each NAL unit; and nothing else has left it.
    pub main_loop-outs_with :
        (fuel turns : ℕ) (st : State S) (bs : List Stream)
        → Turns fuel st.parts turns bs
        → Fits st.pachandle
        → (st' : State S) × (main_loop parts (ilp32_with f) clock (setup outfd) fuel turns st
            ≡ ok st')
          × (st'.outs ≡ outs_with st bs)
    main_loop-outs_with fuel turns st bs run fits = main_loop-from fuel run st refl fits
