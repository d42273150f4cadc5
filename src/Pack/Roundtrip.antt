-- ===== src/Pack/Roundtrip.antt =====
-- The packets of a stream, taken apart again by a receiver, and their number.
use mathlib.Core.Option
use native.Mathlib.Nat.{div-le_self}
use camkit.Base.{
  ℕ, zero, suc, ◌+◌, ◌/◌, ◌%◌, ◌≤◌, ◌<◌, ◌≡◌, ◌≢◌, refl, ◌∙◌, false, true, none, some, List, [],
  ◌∷◌, ◌++◌, inl, inr, leb, arith, length, take, drop, take-append-drop, length-drop, length-append,
  append_assoc, Bool-cases, map,
}
use camkit.Pack.Get.{next_seq}
use camkit.Pack.Packet.{rtp_packet}
use camkit.Pack.Stream.{NalUnit, unit_bytes, start_code, annexb, AllNal}
use camkit.Pack.Spec.{fragment, fragments, seq_after, unit_packets, stream_packets}
use camkit.Pack.Receive.{piece, pieces, receive, whole, first, middle, last, depacketize}
use camkit.Pack.Units.{length-fragments}

module _ (max ssrc : ℕ) where
  piece-last :
      (seq ts : ℕ) (u : NalUnit) (r : List ℕ)
      → piece (drop 12 (fragment max ssrc 1 0 1 seq ts u r)) ≡ last r
  piece-last seq ts u r = ground arith

  piece-middle :
      (seq ts : ℕ) (u : NalUnit) (r : List ℕ)
      → piece (drop 12 (fragment max ssrc 0 0 0 seq ts u r)) ≡ middle r
  piece-middle seq ts u r = ground arith

  piece-first :
      (seq ts : ℕ) (u : NalUnit) (r : List ℕ)
      → piece (drop 12 (fragment max ssrc 0 1 0 seq ts u r)) ≡ first (u.header ∷ r)
  piece-first seq ts u r = ground arith

  piece-whole :
      (seq ts : ℕ) (u : NalUnit)
      → u.header % 32 ≢ 28
      → piece (drop 12 (rtp_packet 1 seq ts ssrc (u.header ∷ u.body))) ≡ whole (unit_bytes u)
  piece-whole seq ts u n = ground arith

  receive-fragments :
      (k seq ts : ℕ) (u : NalUnit) (r acc : List ℕ) (qs : List (List ℕ))
      → receive (some acc) (pieces (fragments max ssrc k seq ts u r ++ qs))
        ≡ Option.map (λ us. (acc ++ r) ∷ us) (receive none (pieces qs))
  receive-fragments zero seq ts u r acc qs = rw (piece-last seq ts u r)
  receive-fragments (suc k) seq ts u r acc qs = rw (piece-middle seq ts u (take max r)) (
      receive-fragments k (next_seq seq) ts u (drop max r) (acc ++ take max r) qs
      ∙ rw (append_assoc acc (take max r) (drop max r), take-append-drop max r))

  receive-unit :
      (seq ts : ℕ) (u : NalUnit) (qs : List (List ℕ))
      → u.header % 32 ≢ 28
      → receive none (pieces (unit_packets max ssrc seq ts u ++ qs))
        ≡ Option.map (λ us. unit_bytes u ∷ us) (receive none (pieces qs))
  unfolding unit_packets
  receive-unit seq ts u qs n = elim (Bool-cases (leb (suc (length u.body)) max)) [
    | inl e ↦ rw (e, piece-whole seq ts u n)
    | inr e ↦
        rw (e, piece-first seq ts u (take max u.body))
          (receive-fragments (length (drop max u.body) / max) (next_seq seq) ts u (drop max u.body)
              (u.header ∷ take max u.body) qs
            ∙ rw (take-append-drop max u.body))
  ]

  pub depacketize-stream_packets :
      (ts : ℕ → ℕ) (tick seq : ℕ) (us : List NalUnit)
      → AllNal us
      → depacketize (stream_packets max ssrc ts tick seq us) ≡ some (map unit_bytes us)
  unfolding depacketize stream_packets
  depacketize-stream_packets ts tick seq [] v = refl
  depacketize-stream_packets ts tick seq (u ∷ us) v =
      let n : ℕ = length (unit_packets max ssrc seq (ts tick) u) in
      let qs = stream_packets max ssrc ts (tick + n) (seq_after n seq) us in
      receive-unit seq (ts tick) u qs v.0.not_fragment
      ∙ rw (depacketize-stream_packets ts (tick + n) (seq_after n seq) us v.1)

  -- A unit of n bytes needs at most n packets.
  length-unit_packets :
      (seq ts : ℕ) (u : NalUnit)
      → 0 < max
      → length (unit_packets max ssrc seq ts u) ≤ suc (length u.body)
  unfolding unit_packets
  length-unit_packets seq ts u pos = elim (Bool-cases (leb (suc (length u.body)) max)) [
    | inl e ↦ rw e (omega arith)
    | inr e ↦
        rw
          (
            e,
            length-fragments max ssrc (length (drop max u.body) / max) (next_seq seq) ts u
                (drop max u.body),
          )
          (ground (arith, div-le_self (length (drop max u.body)) max, length-drop max u.body))
  ]

  start_code_pos : (long : _) (rest : List ℕ) → length rest < length (start_code long ++ rest)
  start_code_pos false rest = omega arith
  start_code_pos true rest = omega arith

  pub length-stream_packets :
      (ts : ℕ → ℕ) (tick seq : ℕ) (us : List NalUnit)
      → 0 < max
      → length (stream_packets max ssrc ts tick seq us) ≤ length (annexb us)
  unfolding stream_packets
  length-stream_packets ts tick seq [] pos = omega arith
  length-stream_packets ts tick seq (u ∷ us) pos =
      let packets = unit_packets max ssrc seq (ts tick) u in
      let n : ℕ = length packets in
      let qs = stream_packets max ssrc ts (tick + n) (seq_after n seq) us in
      omega (
        arith,
        length-append packets qs,
        length-unit_packets seq (ts tick) u pos,
        length-stream_packets ts (tick + n) (seq_after n seq) us pos,
        start_code_pos u.long_code (u.header ∷ (u.body ++ annexb us)),
        length-append u.body (annexb us),
      )
