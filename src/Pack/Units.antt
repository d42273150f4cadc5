-- ===== src/Pack/Units.antt =====
-- `pack_get` of src/rtp_pack.c over a whole unit, and over a whole stream: the packets are those
-- that the specification asks for.
use mathlib.Core.Path.{subst}
use camkit.Base.{
  ℕ, zero, suc, ◌+◌, ◌-◌, ◌*◌, ◌/◌, ◌≤◌, ◌<◌, ◌≡◌, refl, ap, ◌∙◌, sym, false, none, some, List, [],
  ◌∷◌, ◌++◌, inl, inr, leb, arith, length, take, drop, drop-drop, drop-append, drop-append_le,
  take-append-drop, length-take, length-drop, length-append, Bool-cases, leb→le,
}
use camkit.Pack.{Platform, Timeb, PacParam, PacHandle, ilp32, describe_nalu, max_outbuf_size}
use camkit.Pack.Get.{next_seq, sample_time, fu_counter_of, last_fu_size_of}
use camkit.Pack.Header.{nalu_byte_rebuilt, fu_indicator_of, type_of_lem}
use camkit.Pack.Packet.{rtp_packet}
use camkit.Pack.Stream.{NalUnit, code_len, annexb, IsNal, AllNal}
use camkit.Pack.Scan.{next_at, drop-suc, length_of_drop}
use camkit.Pack.Spec.{fragment, fragments, seq_after, unit_packets, stream_packets}
use camkit.Pack.Cut.{Cut, Cut-divide}
use camkit.Pack.Emits.{Emits, stop, emit, Emits-append}
use camkit.Pack.Send.{single_out, fragment_out, single_packet, fragment_packet}
use camkit.Pack.Begin.{
  ready, header_at, unit_at, unit_end, unit_len, stamped, pack_get-single, pack_get-first,
}
use camkit.Pack.Continue.{Remains, Emits-fragments}

pub length-fragments :
    (max ssrc k seq ts : ℕ) (u : NalUnit) (r : List ℕ)
    → length (fragments max ssrc k seq ts u r) ≡ suc k
length-fragments max ssrc zero seq ts u r = refl
length-fragments max ssrc (suc k) seq ts u r =
    ap suc (length-fragments max ssrc k (next_seq seq) ts u (drop max r))

seq_after-add : (m n seq : ℕ) → seq_after (m + n) seq ≡ seq_after n (seq_after m seq)
seq_after-add zero n seq = let e : 0 + n ≡ n = omega arith in rw e
seq_after-add (suc m) n seq =
    let e : suc m + n ≡ suc (m + n) = omega arith in rw e (seq_after-add m n (next_seq seq))

module _ (f : ℕ → ℕ) (clock : ℕ → Timeb) (params : PacParam) (start : ℕ)
    (pos : 0 < params.max_pkt_len) (room : params.max_pkt_len + 14 ≤ max_outbuf_size) where
  abbrev platform : Platform
  platform = record { abi = ilp32; u32_of_double = f }

  abbrev max : ℕ
  max = params.max_pkt_len

  abbrev ts_of : ℕ → ℕ
  ts_of tick = sample_time platform (clock tick) start

  module _ (mem : List ℕ) (p tick seq : ℕ) (j : PacHandle) (u : NalUnit) (us : List NalUnit)
      (h : drop p mem ≡ annexb (u ∷ us)) (v : IsNal u) where
    abbrev after : ℕ → PacHandle → PacHandle
    after n j' = ready params start j' mem (next_at us (unit_end p u)) (seq_after n seq)

    abbrev Sends : List (List ℕ) → Type 0
    Sends packets =
        (j' : PacHandle) × Emits platform clock tick (ready params start j mem (some p) seq) packets
          (after (length packets) j')

    abbrev at_unit : PacHandle
    at_unit = stamped params start j mem p seq u us h (ts_of tick)

    single_sent :
        suc (length u.body) ≤ max
        → take (at_unit.nalu.len + 12) (single_out at_unit seq (ts_of tick) u.body)
          ≡ rtp_packet 1 seq (ts_of tick) params.ssrc (u.header ∷ u.body)
    unfolding describe_nalu
    single_sent small =
        single_packet at_unit seq (ts_of tick) u.body (at_unit.nalu.len + 12)
          (omega (arith, unit_len params start j mem p seq u us h))
          (omega (arith, unit_len params start j mem p seq u us h))
        ∙ rw (nalu_byte_rebuilt u.header v.byte)

    Sends-single :
        suc (length u.body) ≤ max
        → Sends (rtp_packet 1 seq (ts_of tick) params.ssrc (u.header ∷ u.body) ∷ [])
    Sends-single small = (
      record at_unit { outbuf = single_out at_unit seq (ts_of tick) u.body },
      emit _ (at_unit.nalu.len + 12)
          (pack_get-single params start j mem p seq u us h f (clock tick) v small (omega arith))
          (single_sent small) stop,
    )

    abbrev left : ℕ
    left = length (drop max u.body) / max

    abbrev split_packets : List (List ℕ)
    split_packets =
        fragment max params.ssrc 0 1 0 seq (ts_of tick) u (take max u.body)
        ∷ fragments max params.ssrc left (next_seq seq) (ts_of tick) u (drop max u.body)

    Cut-unit :
        max < suc (length u.body)
        → Cut max
            (suc (length u.body))
            (fu_counter_of ilp32 at_unit)
            (last_fu_size_of ilp32 at_unit)
    unfolding fu_counter_of last_fu_size_of describe_nalu
    Cut-unit big =
        rw (unit_len params start j mem p seq u us h) (Cut-divide max (suc (length u.body)) pos big)

    left-eq : left ≡ (suc (length u.body) - 1 - max) / max
    left-eq =
        let e : length (drop max u.body) ≡ suc (length u.body) - 1 - max =
          omega (arith, length-drop max u.body) in
        ap (λ k. k / max) e

    Remains-first :
        max < suc (length u.body)
        → Remains f clock params start mem
            (next_at us (unit_end p u))
            (code_len u.long_code)
            p
            (unit_end p u)
            (ts_of tick)
            (fu_counter_of ilp32 at_unit)
            (last_fu_size_of ilp32 at_unit)
            u
            (annexb us)
            v.byte
            room
            1
            (drop max u.body)
    Remains-first big =
        let here : drop (header_at p u) mem ≡ u.header ∷ (u.body ++ annexb us) =
          unit_at mem p u us h in
        let e : header_at p u + (1 + 1 * max) ≡ header_at p u + 1 + max = omega arith in
        record {
          bytes_at =
              ap (λ k. drop k mem) e
              ∙ sym (drop-drop max (header_at p u + 1) mem)
              ∙ ap (drop max) (drop-suc mem (header_at p u) here)
              ∙ drop-append_le max u.body (annexb us) (omega arith);
          within = omega (
            arith,
            length_of_drop mem (header_at p u) u.header (u.body ++ annexb us) here,
            length-append u.body (annexb us),
          );
        }

    first_handle : PacHandle
    first_handle = record at_unit {
      outbuf = fragment_out at_unit 0 1 0 seq (ts_of tick) (take max u.body);
      fu_counter = fu_counter_of ilp32 at_unit;
      last_fu_size = last_fu_size_of ilp32 at_unit;
      fu_index = 1;
      nalu_complete = false;
    }

    first_sent :
        max < suc (length u.body)
        → take (max + 14) (fragment_out at_unit 0 1 0 seq (ts_of tick) (take max u.body))
          ≡ fragment max params.ssrc 0 1 0 seq (ts_of tick) u (take max u.body)
    unfolding describe_nalu
    first_sent big =
        fragment_packet at_unit seq (ts_of tick) (take max u.body) 0 1 0 (max + 14)
          (omega (arith, length-take max u.body)) room
        ∙ rw (fu_indicator_of u.header v.byte, type_of_lem u.header v.byte)

    -- What follows the first fragment.
    Emits-later :
        max < suc (length u.body)
        → (j' : PacHandle) × Emits platform clock
            (tick + 1)
            first_handle
            (fragments max params.ssrc left (next_seq seq) (ts_of tick) u (drop max u.body))
            (ready params start j' mem
              (next_at us (unit_end p u))
              (seq_after (suc left) (next_seq seq)))
    unfolding first_handle
    Emits-later big =
        let cut : Cut max (suc (length u.body)) (fu_counter_of ilp32 at_unit)
            (last_fu_size_of ilp32 at_unit) =
          Cut-unit big in
        let product : left * max ≡ (suc (length u.body) - 1 - max) / max * max =
          ap (λ (k : ℕ). k * max) left-eq in
        Emits-fragments f clock params start mem (next_at us (unit_end p u)) (code_len u.long_code)
          p (unit_end p u) (ts_of tick) (fu_counter_of ilp32 at_unit)
          (last_fu_size_of ilp32 at_unit) u (annexb us) v.byte room left (tick + 1) (next_seq seq) 1
          first_handle (drop max u.body) (omega (arith, left-eq)) cut.small
          (omega (arith, length-drop max u.body)) cut.pos (Remains-first big)

    Sends-split : max < suc (length u.body) → Sends split_packets
    unfolding first_handle
    Sends-split big =
        let (j', later) = Emits-later big in
        (
          j',
          emit first_handle (max + 14)
              (pack_get-first params start j mem p seq u us h f (clock tick) (take max u.body)
                (drop max u.body) v (sym (take-append-drop max u.body))
                (omega (arith, length-take max u.body)) pos room)
              (first_sent big)
              (subst
                (λ n.
                  Emits platform clock (tick + 1) first_handle
                    (fragments max params.ssrc left (next_seq seq) (ts_of tick) u (drop max u.body))
                    (after (suc n) j'))
                (sym (
                  length-fragments max params.ssrc left (next_seq seq) (ts_of tick) u
                    (drop max u.body)))
                later),
        )

    Sends-unit : Sends (unit_packets max params.ssrc seq (ts_of tick) u)
    unfolding unit_packets
    Sends-unit = elim (Bool-cases (leb (suc (length u.body)) max)) [
      | inl e ↦ rw e (Sends-single (leb→le _ _ e))
      | inr e ↦ rw e (Sends-split (ground arith))
    ]

  unit_end_at :
      (mem : List ℕ) (p : ℕ) (u : NalUnit) (us : List NalUnit)
      → drop p mem ≡ annexb (u ∷ us)
      → drop (unit_end p u) mem ≡ annexb us
  unit_end_at mem p u us h =
      sym (drop-drop (length u.body) (header_at p u + 1) mem)
      ∙ ap (drop (length u.body)) (drop-suc mem (header_at p u) (unit_at mem p u us h))
      ∙ drop-append u.body (annexb us)

  -- The whole stream: every unit, in order, and then the handle has no more.
  pub Emits-stream :
      (mem : List ℕ) (us : List NalUnit) (p tick seq : ℕ) (j : PacHandle)
      → AllNal us
      → drop p mem ≡ annexb us
      → (j' : PacHandle) × Emits platform clock tick
          (ready params start j mem (next_at us p) seq)
          (stream_packets max params.ssrc ts_of tick seq us)
          (ready params start j' mem none
            (seq_after (length (stream_packets max params.ssrc ts_of tick seq us)) seq))
  unfolding stream_packets
  Emits-stream mem [] p tick seq j v h = (j, stop)
  Emits-stream mem (u ∷ us) p tick seq j v h =
      let packets = unit_packets max params.ssrc seq (ts_of tick) u in
      let n : ℕ = length packets in
      let (j', here) = Sends-unit mem p tick seq j u us h v.0 in
      let (k, later) =
        Emits-stream mem us (unit_end p u) (tick + n) (seq_after n seq) j' v.1
          (unit_end_at mem p u us h) in
      let rest = stream_packets max params.ssrc ts_of (tick + n) (seq_after n seq) us in
      (
        k,
        rw (length-append packets rest, seq_after-add n (length rest) seq)
            (Emits-append platform clock (tick + n) refl here later),
      )
