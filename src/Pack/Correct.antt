-- ===== src/Pack/Correct.antt =====
-- Packing a well-formed byte stream with src/rtp_pack.c, from `pack_put` to the call of `pack_get`
-- that returns 0.
use camkit.Base.{ℕ, ◌+◌, ◌≤◌, ◌<◌, ◌≡◌, refl, true, none, some, List, ◌∷◌, ok, arith, length, map}
use camkit.Pack.{Platform, Timeb, PacHandle, pack_put, get_next_nalu, ilp32, max_outbuf_size}
use camkit.Pack.Get.{pack_get, sample_time}
use camkit.Pack.Session.{drain}
use camkit.Pack.Stream.{NalUnit, unit_bytes, annexb, AllNal}
use camkit.Pack.Spec.{seq_after, stream_packets}
use camkit.Pack.Emits.{drain-Emits}
use camkit.Pack.Begin.{ready}
use camkit.Pack.Units.{Emits-stream}
use camkit.Pack.Receive.{depacketize}
use camkit.Pack.Roundtrip.{depacketize-stream_packets, length-stream_packets}

-- A target where `unsigned long` has 4 bytes.
abbrev pub ilp32_with : (ℕ → ℕ) → Platform
ilp32_with f = record { abi = ilp32; u32_of_double = f }

module _ (f : ℕ → ℕ) (clock : ℕ → Timeb) (h : PacHandle) (u : NalUnit) (us : List NalUnit) where
  abbrev pub stream : List ℕ
  stream = annexb (u ∷ us)

  -- The packets that the specification asks for, from the handle's sequence number on.
  abbrev pub wanted : ℕ → List (List ℕ)
  wanted tick =
      stream_packets h.params.max_pkt_len h.params.ssrc
        (λ t. sample_time (ilp32_with f) (clock t) h.ts_start_millisec) tick h.seq_num (u ∷ us)

  no_more_units :
      (j : PacHandle) (mem : List ℕ) (n tick : ℕ)
      → (g : PacHandle) × (pack_get
            (ilp32_with f)
            (clock tick)
            (ready h.params h.ts_start_millisec j mem none n)
          ≡ ok (g, none))
        × (g.inbuf_complete ≡ true)
        × (g.seq_num ≡ n)
        × (g.params ≡ h.params)
        × (g.ts_start_millisec ≡ h.ts_start_millisec)
  unfolding pack_get get_next_nalu
  no_more_units j mem n tick = (_, refl, refl, refl, refl, refl)

  pub drain-kept :
      (fuel tick : ℕ)
      → AllNal (u ∷ us)
      → 0 < h.params.max_pkt_len
      → h.params.max_pkt_len + 14 ≤ max_outbuf_size
      → length stream < fuel
      → (g : PacHandle) × (drain (ilp32_with f) clock fuel tick (pack_put h stream (length stream))
          ≡ ok (g, wanted tick))
        × (g.inbuf_complete ≡ true)
        × (g.seq_num ≡ seq_after (length (wanted tick)) h.seq_num)
        × (g.params ≡ h.params)
        × (g.ts_start_millisec ≡ h.ts_start_millisec)
  unfolding pack_put
  drain-kept fuel tick v pos room enough =
      let begun : PacHandle = pack_put h stream (length stream) in
      let (j, sent) =
        Emits-stream f clock h.params h.ts_start_millisec pos room stream (u ∷ us) 0 tick h.seq_num
          begun v refl in
      let (g, last, complete, seq, same_params, same_start) =
        no_more_units j stream (seq_after (length (wanted tick)) h.seq_num)
          (tick + length (wanted tick)) in
      let few : length (wanted tick) ≤ length stream =
        length-stream_packets h.params.max_pkt_len h.params.ssrc _ tick h.seq_num (u ∷ us) pos in
      (
        g,
        drain-Emits (ilp32_with f) clock fuel tick (tick + length (wanted tick)) begun (wanted tick)
            sent refl last (omega arith),
        complete,
        seq,
        same_params,
        same_start,
      )

  -- Let `unsigned long` have 4 bytes. For a stream of at least one well-formed unit, a positive packet
  -- length that leaves room in the buffer, and as much fuel as the stream has bytes and one more,
  -- putting the stream and getting packets until 0 is returned ends without fault or abort with
  -- exactly the packets of Pack/Spec: each unit in a single NAL unit packet or in FU-A fragments of
  -- RFC 6184, with the marker in the unit's last packet and a timestamp of the unit's own. The input
  -- is then complete, and the sequence number has advanced by the number of packets.
  pub drain-stream_packets :
      (fuel tick : ℕ)
      → AllNal (u ∷ us)
      → 0 < h.params.max_pkt_len
      → h.params.max_pkt_len + 14 ≤ max_outbuf_size
      → length stream < fuel
      → (g : PacHandle) × (drain (ilp32_with f) clock fuel tick (pack_put h stream (length stream))
          ≡ ok (g, wanted tick))
        × (g.inbuf_complete ≡ true)
        × (g.seq_num ≡ seq_after (length (wanted tick)) h.seq_num)
  drain-stream_packets fuel tick v pos room enough =
      let (g, ran, complete, seq, same_params, same_start) =
        drain-kept fuel tick v pos room enough in
      (g, ran, complete, seq)

  -- Let `unsigned long` have 4 bytes. For a stream of at least one well-formed unit, a positive packet
  -- length that leaves room in the buffer, and as much fuel as the stream has bytes and one more, the
  -- packets of the stream are all got without fault or abort, and a receiver that follows RFC 6184
  -- gets back from them exactly the units of the stream, in order and byte for byte.
  pub depacketize-drain :
      (fuel tick : ℕ)
      → AllNal (u ∷ us)
      → 0 < h.params.max_pkt_len
      → h.params.max_pkt_len + 14 ≤ max_outbuf_size
      → length stream < fuel
      → (g : PacHandle) × (packets : List (List ℕ)) × (drain
            (ilp32_with f)
            clock
            fuel
            tick
            (pack_put h stream (length stream))
          ≡ ok (g, packets))
        × (depacketize packets ≡ some (map unit_bytes (u ∷ us)))
  depacketize-drain fuel tick v pos room enough =
      let (g, ran, complete, advanced) = drain-stream_packets fuel tick v pos room enough in
      (
        g,
        wanted tick,
        ran,
        depacketize-stream_packets h.params.max_pkt_len h.params.ssrc _ tick h.seq_num (u ∷ us) v,
      )
