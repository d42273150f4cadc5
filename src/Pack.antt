-- ===== src/Pack.antt =====
-- src/rtp_pack.c: cuts an H.264 byte stream (Annex B) into NAL units and these into RTP packets,
-- whole or as FU-A fragments. A pointer into the input is its offset from `inbuf`; `none` is NULL.
-- A function that changes `*handle` returns the new record.
pub mod Buffer
pub mod Get
pub mod Session
pub mod EveryCall
pub mod Clock
pub mod Ends
pub mod Safety
pub mod Correct
pub mod Sizes
pub mod Roundtrip
pub mod Receive
pub mod Cut
pub mod Units
pub mod Continue
pub mod Begin
pub mod Spec
pub mod Emits
pub mod Header
pub mod Send
pub mod Stream
pub mod Scan
pub mod Packet
mod Tests
use Prim.Native.Nat.{bit_and}
use mathlib.Core.Option
use Buffer.{zeros, put_bits, be16, be32, write_at, read_bytes, store_bytes, matches}
use camkit.Base.{
  ℕ, zero, suc, ◌+◌, ◌-◌, ◌*◌, ◌/◌, ◌%◌, ◌^◌, Bool, true, false, Option, none, some, List, [], ◌∷◌,
  ◌++◌, Outcome, ok, aborted, fault, out_of_fuel, expect, require, ◌>>=◌, ◌>>◌, ◌==◌, ltb, leb,
  if◌then◌else◌, get_elem?,
}

-- Where `unsigned long` has 4 bytes, and where it has 8: the fields of `rtp_header` lie elsewhere.
pub data Abi : Type 0 where
  ilp32 lp64 : Abi

abbrev pub timestamp_off : Abi → ℕ
timestamp_off ilp32 = 4
timestamp_off lp64 = 8

abbrev pub ssrc_off : Abi → ℕ
ssrc_off ilp32 = 8
ssrc_off lp64 = 16

-- The bytes of an `unsigned long` that holds `htonl(v)`.
abbrev pub long_bytes : Abi → ℕ → List ℕ
long_bytes ilp32 v = be32 v
long_bytes lp64 v = be32 v ++ 0 ∷ 0 ∷ 0 ∷ 0 ∷ []

-- The target: its `unsigned long`, and its conversion from `double` to `unsigned int`, which C
-- defines only for values that fit.
pub record Platform : Type 0 where
  pub abi : Abi
  pub u32_of_double : ℕ → ℕ

-- `struct timeb`, as `ftime` fills it.
pub record Timeb : Type 0 where
  pub time : ℕ
  pub millitm : ℕ

pub record PacParam : Type 0 where
  pub max_pkt_len : ℕ
  pub ssrc : ℕ

-- `nalu_t`
pub record Nalu : Type 0 where
  pub startcodeprefix_len : ℕ
  pub data_ptr : Option ℕ
  pub len : ℕ
  pub forbidden_bit : ℕ
  pub nal_reference_idc : ℕ
  pub nal_unit_type : ℕ

-- `inbuf` is the memory that can be read from the pointer on.
pub record PacHandle : Type 0 where
  pub inbuf : List ℕ
  pub outbuf : List ℕ
  pub outbuf_ptr : ℕ
  pub next_nalu_ptr : Option ℕ
  pub inbuf_size : ℕ
  pub fu_counter : ℕ
  pub last_fu_size : ℕ
  pub fu_index : ℕ
  pub inbuf_complete : Bool
  pub nalu_complete : Bool
  pub nalu : Nalu
  pub seq_num : ℕ
  pub ts_start_millisec : ℕ
  pub ts_current_sample : ℕ
  pub params : PacParam

abbrev pub h264 : ℕ
h264 = 96

abbrev pub fu_a : ℕ
fu_a = 28

abbrev pub max_outbuf_size : ℕ
max_outbuf_size = 10 * 1024

-- `time_t` is taken to have 64 bits; with 32 the signed product overflows, which gcc lets wrap only
-- under -fwrapv.
unfoldable pub get_current_millisec : Timeb → ℕ
get_current_millisec tb = (1000 * tb.time + tb.millitm) % 2 ^ 32

abbrev pub no_nalu : Nalu
no_nalu = record {
  startcodeprefix_len = 0;
  data_ptr = none;
  len = 0;
  forbidden_bit = 0;
  nal_reference_idc = 0;
  nal_unit_type = 0;
}

-- The two `malloc` calls are arguments: whether the first succeeds, and the buffer of the second.
unfoldable pub pack_open : Bool → Option (List ℕ) → Timeb → PacParam → Option PacHandle
unfolding get_current_millisec
pack_open got_handle got_outbuf tb params =
    if got_handle then Option.map opened got_outbuf else none
  where
    opened : List ℕ → PacHandle
    opened buf = record {
      inbuf = [];
      outbuf = buf;
      outbuf_ptr = 0;
      next_nalu_ptr = none;
      inbuf_size = 0;
      fu_counter = 0;
      last_fu_size = 0;
      fu_index = 0;
      inbuf_complete = false;
      nalu_complete = false;
      nalu = no_nalu;
      seq_num = 0;
      ts_start_millisec = get_current_millisec tb;
      ts_current_sample = 0;
      params = params;
    }

unfoldable pub pack_put : PacHandle → List ℕ → ℕ → PacHandle
pack_put handle inbuf isize = record handle {
  inbuf = inbuf;
  next_nalu_ptr = some 0;
  inbuf_size = isize;
  fu_counter = 0;
  last_fu_size = 0;
  fu_index = 0;
  inbuf_complete = false;
  nalu_complete = true;
}

unfoldable pub is_start_code4 : List ℕ → ℕ → Outcome Bool
is_start_code4 = matches (0 ∷ 0 ∷ 0 ∷ 1 ∷ [])

unfoldable pub is_start_code3 : List ℕ → ℕ → Outcome Bool
is_start_code3 = matches (0 ∷ 0 ∷ 1 ∷ [])

-- The prefix at the current unit; `none` is the return of -1.
unfoldable pub prefix_len : List ℕ → ℕ → Outcome (Option ℕ)
prefix_len mem p = do
  three ← is_start_code3 mem p
  if three
      then ok (some 3)
      else do four ← is_start_code4 mem p; if four then ok (some 4) else ok none

-- The loop that looks for the next start code: the new `next_nalu_ptr`, and `next_ptr`.
pub find_next : List ℕ → (inbuf_size fuel next_ptr : ℕ) → Outcome (Option ℕ × ℕ)
find_next mem size zero p = out_of_fuel
find_next mem size (suc fuel) p =
    let rest = find_next mem size fuel (p + 1) in
    if leb size (p + 1) then ok (none, p + 1) else do
      three ← is_start_code3 mem (p + 1)
      found ← if three then ok true else is_start_code4 mem (p + 1)
      if found then ok (some (p + 1), p + 1) else rest

-- The returns 0, -1 and 1 of `get_next_nalu`.
pub data Next : Type 0 where
  no_more no_startcode found : Next

-- The unit between two start codes, with the fields of its first byte.
unfoldable pub describe_nalu : (prefix cur next_ptr header : ℕ) → Nalu
describe_nalu prefix cur next_ptr header = record {
  startcodeprefix_len = prefix;
  data_ptr = some (cur + prefix);
  len = next_ptr - cur - prefix;
  forbidden_bit = bit_and header 0x80 / 2 ^ 7;
  nal_reference_idc = bit_and header 0x60 / 2 ^ 5;
  nal_unit_type = bit_and header 0x1f;
}

unfoldable pub get_next_nalu : PacHandle → Outcome (PacHandle × Next)
unfolding find_next describe_nalu
get_next_nalu handle = elim handle.next_nalu_ptr [
  | none ↦ ok (handle, no_more)
  | some cur ↦ do
    prefix ← prefix_len handle.inbuf cur
    elim prefix [
      | none ↦ ok (handle, no_startcode)
      | some n ↦ do
        (next, next_ptr) ←
            find_next handle.inbuf handle.inbuf_size (handle.inbuf_size + 1) (cur + n)
        header ← expect (get_elem? handle.inbuf (cur + n))
        ok (
          record handle { next_nalu_ptr = next; nalu = describe_nalu n cur next_ptr header },
          found,
        )
    ]
]
