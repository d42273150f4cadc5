-- ===== src/Pack/Get.antt =====
-- `pack_get` of src/rtp_pack.c: one RTP packet for each call. The four ways in which a packet is
-- filled are functions of their own; each returns `*outsize` (`some`, for the return value 1).
use camkit.Base.{
  ℕ, ◌+◌, ◌-◌, ◌*◌, ◌/◌, ◌%◌, ◌^◌, true, false, Option, none, some, List, Outcome, ok, fault,
  expect, require, ◌>>=◌, ◌>>◌, ◌==◌, leb, if◌then◌else◌,
}
use camkit.Pack.Buffer.{zeros, put_bits, be16, write_at, read_bytes, store_bytes}
use camkit.Pack.{
  Platform, Timeb, PacParam, PacHandle, Abi, h264, fu_a, max_outbuf_size, timestamp_off, ssrc_off,
  long_bytes, get_current_millisec, get_next_nalu, Next, found,
}

-- Payload type, version, marker and SSRC, which every packet has.
unfoldable pub set_common : Abi → PacParam → List ℕ → List ℕ
set_common abi params buf =
    let b1 = put_bits 1 0 7 h264 buf in
    let b2 = put_bits 0 6 2 2 b1 in
    let b3 = put_bits 1 7 1 0 b2 in write_at (ssrc_off abi) (long_bytes abi params.ssrc) b3

abbrev pub set_seq_no : ℕ → List ℕ → List ℕ
set_seq_no seq buf = write_at 2 (be16 seq) buf

abbrev pub set_timestamp : Abi → ℕ → List ℕ → List ℕ
set_timestamp abi ts buf = write_at (timestamp_off abi) (long_bytes abi ts) buf

abbrev pub set_marker : ℕ → List ℕ → List ℕ
set_marker m buf = put_bits 1 7 1 m buf

-- The F, NRI and TYPE fields of `nalu_header` and of `fu_indicator`.
abbrev pub set_nalu_byte : (f nri type : ℕ) → List ℕ → List ℕ
set_nalu_byte f nri type buf = put_bits 12 0 5 type (put_bits 12 5 2 nri (put_bits 12 7 1 f buf))

-- The fields of `fu_header`.
abbrev pub set_fu_header : (e r s type : ℕ) → List ℕ → List ℕ
set_fu_header e r s type buf =
    put_bits 13 0 5 type (put_bits 13 7 1 s (put_bits 13 5 1 r (put_bits 13 6 1 e buf)))

-- The size check before `memcpy`, and the copy of `n` bytes from `data_ptr + from` to `off`.
unfoldable pub copy_payload : PacHandle → (outsize off from n : ℕ) → List ℕ → Outcome (List ℕ)
copy_payload handle outsize off from n buf = do
  require (leb outsize max_outbuf_size)
  start ← expect handle.nalu.data_ptr
  bytes ← read_bytes handle.inbuf (start + from) n
  store_bytes off bytes buf

module _ (abi : Abi) (handle : PacHandle) where
  -- `buf` has the common header, the sequence number and the timestamp.
  unfoldable pub send_single : List ℕ → Outcome (PacHandle × Option ℕ)
  send_single buf = do
    let nalu = handle.nalu
    let outsize = nalu.len + 12
    let head =
        set_nalu_byte nalu.forbidden_bit nalu.nal_reference_idc nalu.nal_unit_type
          (set_marker 1 buf)
    out ← copy_payload handle outsize 13 1 (nalu.len - 1) head
    ok (record handle { outbuf = out; nalu_complete = true }, some outsize)

  -- How many fragments follow the first, and the size of the last.
  unfoldable pub fu_counter_of : ℕ
  fu_counter_of =
      if handle.nalu.len % handle.params.max_pkt_len == 0
      then handle.nalu.len / handle.params.max_pkt_len - 1
      else handle.nalu.len / handle.params.max_pkt_len

  unfoldable pub last_fu_size_of : ℕ
  last_fu_size_of =
      if handle.nalu.len % handle.params.max_pkt_len == 0
      then handle.params.max_pkt_len
      else handle.nalu.len % handle.params.max_pkt_len

  abbrev pub fu_head : (e s marker : ℕ) → List ℕ → List ℕ
  fu_head e s marker buf = set_fu_header e 0 s handle.nalu.nal_unit_type (
      set_nalu_byte handle.nalu.forbidden_bit handle.nalu.nal_reference_idc fu_a
        (set_marker marker buf))

  -- A division by zero is undefined; `FU_index++` starts from 0.
  unfoldable pub send_first_fu : List ℕ → Outcome (PacHandle × Option ℕ)
  unfolding fu_counter_of last_fu_size_of
  send_first_fu buf = if handle.params.max_pkt_len == 0 then fault else do
    let outsize = handle.params.max_pkt_len + 14
    out ← copy_payload handle outsize 14 1 handle.params.max_pkt_len (fu_head 0 1 0 buf)
    ok (
      record handle {
        outbuf = out;
        fu_counter = fu_counter_of;
        last_fu_size = last_fu_size_of;
        fu_index = 0 + 1;
        nalu_complete = false;
      },
      some outsize,
    )

  -- With `last_FU_size` 0 the size handed to `memcpy` is -1 as a `size_t`.
  unfoldable pub send_last_fu : List ℕ → Outcome (PacHandle × Option ℕ)
  send_last_fu buf = if handle.last_fu_size == 0 then fault else do
    let outsize = handle.last_fu_size - 1 + 14
    let from = 1 + handle.fu_index * handle.params.max_pkt_len
    out ← copy_payload handle outsize 14 from (handle.last_fu_size - 1) (fu_head 1 0 1 buf)
    ok (record handle { outbuf = out; nalu_complete = true; fu_index = 0 }, some outsize)

  unfoldable pub send_middle_fu : List ℕ → Outcome (PacHandle × Option ℕ)
  send_middle_fu buf = do
    let outsize = handle.params.max_pkt_len + 14
    let from = 1 + handle.fu_index * handle.params.max_pkt_len
    out ← copy_payload handle outsize 14 from handle.params.max_pkt_len (fu_head 0 0 0 buf)
    ok (record handle { outbuf = out; fu_index = handle.fu_index + 1 }, some outsize)

-- `seq_num` is an `unsigned short`, and the packet has its value before the increment.
abbrev pub next_seq : ℕ → ℕ
next_seq seq = (seq + 1) % 2 ^ 16

-- The timestamp of a new unit, in units of 1/90000 s. The difference is unsigned.
unfoldable pub sample_time : Platform → Timeb → (start_millisec : ℕ) → ℕ
sample_time pf tb start_millisec =
    pf.u32_of_double ((get_current_millisec tb + 2 ^ 32 - start_millisec) % 2 ^ 32 * 90)

-- The packet of a new unit, whole or its first fragment.
unfoldable pub begin_nalu : Platform → Timeb → PacHandle → List ℕ → Outcome (PacHandle × Option ℕ)
begin_nalu pf tb handle buf =
    let ts = sample_time pf tb handle.ts_start_millisec in
    let stamped = record handle { seq_num = next_seq handle.seq_num; ts_current_sample = ts } in
    let head = set_timestamp pf.abi ts (set_seq_no handle.seq_num buf) in
    let single = send_single pf.abi stamped head in
    let first = send_first_fu pf.abi stamped head in
    if leb handle.nalu.len handle.params.max_pkt_len then single else first

-- A further fragment of the current unit.
unfoldable pub continue_nalu : Platform → PacHandle → List ℕ → Outcome (PacHandle × Option ℕ)
continue_nalu pf handle buf =
    let stamped = record handle { seq_num = next_seq handle.seq_num } in
    let head = set_timestamp pf.abi handle.ts_current_sample (set_seq_no handle.seq_num buf) in
    let last = send_last_fu pf.abi stamped head in
    let middle = send_middle_fu pf.abi stamped head in
    if handle.fu_index == handle.fu_counter then last else middle

unfoldable pub after_search :
    Platform → Timeb → List ℕ → PacHandle → Next → Outcome (PacHandle × Option ℕ)
after_search pf tb buf handle found = begin_nalu pf tb handle buf
after_search pf tb buf handle _ = ok (record handle { outbuf = buf; inbuf_complete = true }, none)

-- `none` stands for the return value 0.
unfoldable pub pack_get : Platform → Timeb → PacHandle → Outcome (PacHandle × Option ℕ)
unfolding set_common after_search begin_nalu continue_nalu
pack_get pf tb handle =
    let buf = set_common pf.abi handle.params (zeros max_outbuf_size) in
    if handle.inbuf_complete
    then ok (handle, none)
    else if handle.nalu_complete
    then (do (searched, ret) ← get_next_nalu handle; after_search pf tb buf searched ret)
    else continue_nalu pf handle buf
