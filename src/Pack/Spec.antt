-- ===== src/Pack/Spec.antt =====
-- The packets that a byte stream is to become, without reference to the state of src/rtp_pack.c: the
-- single NAL unit packets and FU-A fragments of RFC 6184, with each NAL unit taken for an access unit
-- of its own: the marker is set in its last packet, and it has its own timestamp. For the parameter
-- sets and the slices of one picture RFC 6184 (5.1) asks for one timestamp and one marker instead.
use camkit.Base.{
  ℕ, zero, suc, ◌+◌, ◌*◌, ◌/◌, List, [], ◌∷◌, ◌++◌, leb, if◌then◌else◌, length, take, drop,
}
use camkit.Pack.Packet.{rtp_packet, fu_byte}
use camkit.Pack.Stream.{NalUnit}
use camkit.Pack.Get.{next_seq}

abbrev pub seq_after : ℕ → ℕ → ℕ
seq_after zero seq = seq
seq_after (suc n) seq = seq_after n (next_seq seq)

-- At most `max` bytes to a fragment.
module _ (max ssrc : ℕ) where
  abbrev pub fragment : (marker s e seq ts : ℕ) → NalUnit → List ℕ → List ℕ
  fragment marker s e seq ts u bytes =
      rtp_packet marker seq ts ssrc ((u.header / 32 * 32 + 28) ∷ fu_byte s e u.header ∷ bytes)

  -- `left` full fragments, then the last one.
  abbrev pub fragments : (left seq ts : ℕ) → NalUnit → List ℕ → List (List ℕ)
  fragments zero seq ts u r = fragment 1 0 1 seq ts u r ∷ []
  fragments (suc k) seq ts u r =
      fragment 0 0 0 seq ts u (take max r) ∷ fragments k (next_seq seq) ts u (drop max r)

  unfoldable pub unit_packets : (seq ts : ℕ) → NalUnit → List (List ℕ)
  unit_packets seq ts u =
      if leb (suc (length u.body)) max
      then rtp_packet 1 seq ts ssrc (u.header ∷ u.body) ∷ []
      else fragment 0 1 0 seq ts u (take max u.body)
        ∷ fragments (length (drop max u.body) / max) (next_seq seq) ts u (drop max u.body)

  -- `ts n` is the timestamp of a unit that call number `n` begins.
  unfoldable pub stream_packets : (ts : ℕ → ℕ) (tick seq : ℕ) → List NalUnit → List (List ℕ)
  stream_packets ts tick seq [] = []
  stream_packets ts tick seq (u ∷ us) =
      let packets = unit_packets seq (ts tick) u in
      packets ++ stream_packets ts (tick + length packets) (seq_after (length packets) seq) us
