-- ===== src/Pack/Tests.antt =====
-- The theorems on src/rtp_pack.c at concrete inputs.
use camkit.Base.{
  ℕ, ◌*◌, ◌%◌, ◌^◌, ◌≤◌, ◌≡◌, refl, true, false, Bool, none, some, List, [], ◌∷◌, ok, fault, arith,
  length, take, ◌≢◌, if◌then◌else◌,
}
use camkit.Pack.{
  Timeb, PacHandle, PacParam, get_next_nalu, prefix_len, is_start_code3, is_start_code4, pack_put,
  pack_open, ilp32, lp64, get_current_millisec, max_outbuf_size, no_nalu,
}
use camkit.Pack.Buffer.{zeros, matches, set_bits, read_bytes, store_bytes}
use camkit.Pack.Get.{
  pack_get, set_common, sample_time, next_seq, begin_nalu, send_single, copy_payload,
}
use camkit.Pack.Session.{drain}
use camkit.Pack.Stream.{NalUnit, unit_bytes, annexb, AllNal}
use camkit.Pack.Packet.{rtp_packet}
use camkit.Pack.Receive.{depacketize}
use camkit.Pack.Spec.{seq_after}
use camkit.Pack.Correct.{ilp32_with, wanted, drain-stream_packets, depacketize-drain}
use camkit.Pack.EveryCall.{pack_get-rtp_packet, pack_get-lp64}
use camkit.Pack.Clock.{sample_time-get_current_millisec}
use camkit.Pack.Ends.{pack_get-pack_open, pack_get-again}

abbrev wrap : ℕ → ℕ
wrap x = x % 2 ^ 32

abbrev clock : ℕ → Timeb
clock n = record { time = 7; millitm = n }

-- Packets of at most 4 bytes of a unit.
abbrev small : PacParam
small = record { max_pkt_len = 4; ssrc = 10 }

abbrev handle : PacHandle
handle = record {
  inbuf = [];
  outbuf = [];
  outbuf_ptr = 0;
  next_nalu_ptr = none;
  inbuf_size = 0;
  fu_counter = 0;
  last_fu_size = 0;
  fu_index = 0;
  inbuf_complete = false;
  nalu_complete = false;
  nalu = no_nalu;
  seq_num = 0;
  ts_start_millisec = 7000;
  ts_current_sample = 0;
  params = small;
}

-- A sequence parameter set that fits in a packet, and a slice that does not.
abbrev sps : NalUnit
sps = record { long_code = true; header = 0x67; body = 5 ∷ [] }

abbrev slice : NalUnit
slice = record { long_code = false; header = 0x65; body = 1 ∷ 2 ∷ 3 ∷ 4 ∷ 5 ∷ 6 ∷ 7 ∷ 8 ∷ 9 ∷ [] }

not_28 : (n : ℕ) → n ≡ 7 → n ≢ 28
not_28 n e t = omega arith

not_28_either : (n : ℕ) → n ≡ 5 → n ≢ 28
not_28_either n e t = omega arith

both-AllNal : AllNal (sps ∷ slice ∷ [])
both-AllNal = (
  record { byte = omega arith; not_fragment = not_28 7 refl; clean = refl },
  (record { byte = omega arith; not_fragment = not_28_either 5 refl; clean = refl }, tt),
)

drain-stream_packets_example :
    (g : PacHandle) × (drain
        (ilp32_with wrap)
        clock
        20
        1
        (pack_put handle (annexb (sps ∷ slice ∷ [])) (length (annexb (sps ∷ slice ∷ []))))
      ≡ ok (g, wanted wrap clock handle sps (slice ∷ []) 1))
    × (g.inbuf_complete ≡ true)
    × (g.seq_num ≡ seq_after (length (wanted wrap clock handle sps (slice ∷ []) 1)) 0)
drain-stream_packets_example =
    drain-stream_packets wrap clock handle sps (slice ∷ []) 20 1 both-AllNal (omega arith)
      (omega arith) (omega arith)

depacketize-drain_example :
    (g : PacHandle) × (packets : List (List ℕ)) × (drain
        (ilp32_with wrap)
        clock
        20
        1
        (pack_put handle (annexb (sps ∷ slice ∷ [])) (length (annexb (sps ∷ slice ∷ []))))
      ≡ ok (g, packets))
    × (depacketize packets ≡ some (unit_bytes sps ∷ unit_bytes slice ∷ []))
depacketize-drain_example =
    depacketize-drain wrap clock handle sps (slice ∷ []) 20 1 both-AllNal (omega arith)
      (omega arith) (omega arith)

sample_time-get_current_millisec_example :
    sample_time
      (ilp32_with wrap)
      (record { time = 4294968; millitm = 0 })
      (get_current_millisec (record { time = 4294967; millitm = 0 }))
    ≡ 90 * 1000
sample_time-get_current_millisec_example =
    sample_time-get_current_millisec (ilp32_with wrap) (record { time = 4294967; millitm = 0 })
      (record { time = 4294968; millitm = 0 }) 1000 (λ x h. omega arith) (omega arith) (omega arith)

abbrev both : List ℕ
both = annexb (sps ∷ slice ∷ [])

-- The handle after the first packet of `both`.
abbrev after_first : Bool → PacHandle
after_first is_ilp32 = record handle {
  inbuf = both;
  outbuf =
      (if is_ilp32
        then 128 ∷ 224 ∷ 0 ∷ 0 ∷ 0 ∷ 0 ∷ 0 ∷ 90 ∷ 0 ∷ 0 ∷ 0 ∷ 10 ∷ 0x67 ∷ 5 ∷ zeros 10226
        else 128
          ∷ 224
          ∷ 0
          ∷ 0
          ∷ 0
          ∷ 0
          ∷ 0
          ∷ 0
          ∷ 0
          ∷ 0
          ∷ 0
          ∷ 90
          ∷ 0x67
          ∷ 5
          ∷ 0
          ∷ 0
          ∷ 0
          ∷ 0
          ∷ 0
          ∷ 10
          ∷ zeros 10220);
  next_nalu_ptr = some 6;
  inbuf_size = 19;
  nalu_complete = true;
  nalu = record {
    startcodeprefix_len = 4;
    data_ptr = some 4;
    len = 2;
    forbidden_bit = 0;
    nal_reference_idc = 3;
    nal_unit_type = 7;
  };
  seq_num = 1;
  ts_current_sample = 90;
}

first_call :
    pack_get (ilp32_with wrap) (clock 1) (pack_put handle both 19) ≡ ok (after_first true, some 14)
unfolding pack_get pack_put begin_nalu send_single copy_payload sample_time get_next_nalu prefix_len
    is_start_code3 is_start_code4 matches read_bytes store_bytes zeros set_bits get_current_millisec
first_call = refl

first_call_lp64 :
    pack_get (record { abi = lp64; u32_of_double = wrap }) (clock 1) (pack_put handle both 19)
    ≡ ok (after_first false, some 14)
unfolding pack_get pack_put begin_nalu send_single copy_payload sample_time get_next_nalu prefix_len
    is_start_code3 is_start_code4 matches read_bytes store_bytes zeros set_bits get_current_millisec
first_call_lp64 = refl

pack_get-rtp_packet_example :
    (14 ≤ max_outbuf_size)
    × (length (after_first true).outbuf ≡ max_outbuf_size)
    × (1 ≡ next_seq 0)
    × (take 12 (after_first true).outbuf ≡ rtp_packet 1 0 90 10 [])
unfolding pack_put
pack_get-rtp_packet_example =
    pack_get-rtp_packet (ilp32_with wrap) (clock 1) (pack_put handle both 19) (after_first true) 14
      refl first_call

pack_get-lp64_example : take 12 (after_first false).outbuf ≡ rtp_packet 1 0 0 90 []
unfolding pack_put
pack_get-lp64_example =
    pack_get-lp64 (record { abi = lp64; u32_of_double = wrap }) (clock 1) (pack_put handle both 19)
      (after_first false) 14 refl first_call_lp64

pack_get-pack_open_example :
    pack_get (ilp32_with wrap) (clock 1) (record handle { outbuf = [] }) ≡ fault
unfolding pack_open get_current_millisec
pack_get-pack_open_example =
    pack_get-pack_open (ilp32_with wrap) (clock 0) (clock 1) small [] handle refl

-- A byte where a start code is due.
abbrev garbled : PacHandle
garbled = record handle {
  inbuf = 9 ∷ [];
  next_nalu_ptr = some 0;
  inbuf_size = 1;
  nalu_complete = true;
}

abbrev garbled_end : PacHandle
garbled_end = record garbled {
  inbuf_complete = true;
  outbuf = set_common ilp32 small (zeros max_outbuf_size);
}

garbled_call : pack_get (ilp32_with wrap) (clock 1) garbled ≡ ok (garbled_end, none)
unfolding pack_get get_next_nalu prefix_len is_start_code3 is_start_code4 matches
garbled_call = refl

pack_get-again_example : pack_get (ilp32_with wrap) (clock 2) garbled_end ≡ ok (garbled_end, none)
pack_get-again_example =
    pack_get-again (ilp32_with wrap) (clock 1) (clock 2) garbled garbled_end garbled_call
