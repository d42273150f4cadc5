-- ===== src/Pack/Packet.antt =====
-- What the packet buffer of src/rtp_pack.c holds after each kind of packet, on a target where
-- `unsigned long` has 4 bytes: an RTP header (RFC 3550), then a NAL unit or a fragment (RFC 6184).
use camkit.Base.{
  ℕ, zero, suc, ◌+◌, ◌*◌, ◌%◌, ◌≤◌, ◌≡◌, refl, ap, ◌∙◌, List, [], ◌∷◌, ◌++◌, some, ok, arith,
  length, length-append, take, drop, le→leb, length-drop, take-append,
}
use camkit.Pack.Buffer.{zeros, set_bits, be16, be32, overwrite, write_at, read_bytes, store_bytes}
use camkit.Pack.{PacHandle, PacParam, ilp32, max_outbuf_size}
use camkit.Pack.Get.{
  set_common, set_seq_no, set_timestamp, set_marker, set_nalu_byte, fu_head, copy_payload,
}

-- An RTP packet: version 2, payload type 96, no padding, no extension and no CSRC.
abbrev pub rtp_packet : (marker seq ts ssrc : ℕ) → List ℕ → List ℕ
rtp_packet marker seq ts ssrc body =
    128 ∷ (marker * 128 + 96) ∷ be16 seq ++ (be32 ts ++ (be32 ssrc ++ body))

overwrite-length : (bytes buf : List ℕ) → length (overwrite bytes buf) ≡ length buf
overwrite-length [] buf = refl
overwrite-length (b ∷ bytes) [] = refl
overwrite-length (b ∷ bytes) (x ∷ buf) = ap suc (overwrite-length bytes buf)

pub length-write_at : (off : ℕ) (bytes buf : List ℕ) → length (write_at off bytes buf) ≡ length buf
length-write_at zero bytes buf = overwrite-length bytes buf
length-write_at (suc off) bytes [] = refl
length-write_at (suc off) bytes (x ∷ buf) = ap suc (length-write_at off bytes buf)

take-overwrite :
    (bytes buf : List ℕ)
    → length bytes ≤ length buf
    → take (length bytes) (overwrite bytes buf) ≡ bytes
take-overwrite [] buf h = refl
take-overwrite (b ∷ bytes) [] h = absurd (omega arith)
take-overwrite (b ∷ bytes) (x ∷ buf) h = ap (λ t. b ∷ t) (take-overwrite bytes buf (omega arith))

-- A write that fits keeps what stands before it, and what it stores can be read back.
pub take-write_at :
    (off n : ℕ) (bytes buf : List ℕ)
    → n ≡ off + length bytes
    → n ≤ length buf
    → take n (write_at off bytes buf) ≡ take off buf ++ bytes
take-write_at zero n bytes buf e h =
    let e' : n ≡ length bytes = omega arith in rw e' (take-overwrite bytes buf (omega arith))
take-write_at (suc off) zero bytes buf e h = absurd (omega arith)
take-write_at (suc off) (suc n) bytes [] e h = absurd (omega arith)
take-write_at (suc off) (suc n) bytes (x ∷ buf) e h =
    ap (λ t. x ∷ t) (take-write_at off n bytes buf (omega arith) (omega arith))

pub length-zeros : (n : ℕ) → length (zeros n) ≡ n
unfolding zeros
length-zeros zero = refl
length-zeros (suc n) = ap suc (length-zeros n)

-- The part of the buffer behind the headers.
abbrev pub blank : List ℕ
blank = zeros 10226

pub length-blank : length blank ≡ 10226
length-blank = length-zeros 10226

-- The buffer with its RTP header, before the marker and what follows the header.
abbrev pub headed : (seq ts ssrc : ℕ) → List ℕ
headed seq ts ssrc = rtp_packet 0 seq ts ssrc (0 ∷ 0 ∷ blank)

pub set_common-headed :
    (seq ts : ℕ) (params : PacParam)
    → set_timestamp ilp32 ts (set_seq_no seq (set_common ilp32 params (zeros max_outbuf_size)))
      ≡ headed seq ts params.ssrc
unfolding set_common set_bits zeros
set_common-headed seq ts params = refl

abbrev pub nalu_byte : (f nri type : ℕ) → ℕ
nalu_byte f nri type = f % 2 * 128 + nri % 4 * 32 + type % 32

abbrev pub fu_byte : (s e type : ℕ) → ℕ
fu_byte s e type = s * 128 + e * 64 + type % 32

set_bits-nalu :
    (f nri type : ℕ)
    → set_bits 0 5 type (set_bits 5 2 nri (set_bits 7 1 f 0)) ≡ nalu_byte f nri type
unfolding set_bits
set_bits-nalu f nri type = omega arith

set_bits-fu :
    (s e type : ℕ)
    → s ≤ 1
    → e ≤ 1
    → set_bits 0 5 type (set_bits 7 1 s (set_bits 5 1 0 (set_bits 6 1 e 0))) ≡ fu_byte s e type
unfolding set_bits
set_bits-fu s e type hs he = omega arith

set_bits-marker : (m : ℕ) → m ≤ 1 → set_bits 7 1 m 96 ≡ m * 128 + 96
unfolding set_bits
set_bits-marker m h = omega arith

-- The header fields in front of a whole unit, and in front of a fragment.
pub single_head :
    (f nri type seq ts ssrc : ℕ)
    → set_nalu_byte f nri type (set_marker 1 (headed seq ts ssrc))
      ≡ rtp_packet 1 seq ts ssrc (nalu_byte f nri type ∷ 0 ∷ blank)
single_head f nri type seq ts ssrc = rw (set_bits-nalu, set_bits-marker 1 (omega arith))

pub fragment_head :
    (handle : PacHandle) (e s m seq ts ssrc : ℕ)
    → e ≤ 1
    → s ≤ 1
    → m ≤ 1
    → fu_head ilp32 handle e s m (headed seq ts ssrc)
      ≡ rtp_packet m seq ts ssrc (
          nalu_byte handle.nalu.forbidden_bit handle.nalu.nal_reference_idc 28
          ∷ fu_byte s e handle.nalu.nal_unit_type
          ∷ blank)
fragment_head handle e s m seq ts ssrc he hs hm =
    rw (set_bits-nalu, set_bits-fu s e handle.nalu.nal_unit_type hs he, set_bits-marker m hm)

-- The source of a `memcpy` in bounds.
pub read_bytes-ok :
    (mem : List ℕ) (src n : ℕ) (bytes rest : List ℕ)
    → drop src mem ≡ bytes ++ rest
    → src ≤ length mem
    → length bytes ≡ n
    → read_bytes mem src n ≡ ok bytes
unfolding read_bytes
read_bytes-ok mem src n bytes rest hm hs hn =
    let total : length (drop src mem) ≡ length bytes + length rest =
      ap length hm ∙ length-append bytes rest in
    let fits : src + n ≤ length mem = omega (arith, length-drop src mem) in
    rw (le→leb (src + n) (length mem) fits, hm, ← hn, take-append bytes rest)

-- `memcpy` with both ranges in bounds.
pub copy_payload-ok :
    (handle : PacHandle) (outsize off from n start : ℕ) (bytes rest buf : List ℕ)
    → handle.nalu.data_ptr ≡ some start
    → drop (start + from) handle.inbuf ≡ bytes ++ rest
    → start + from ≤ length handle.inbuf
    → length bytes ≡ n
    → outsize ≤ max_outbuf_size
    → off + n ≤ length buf
    → copy_payload handle outsize off from n buf ≡ ok (write_at off bytes buf)
unfolding copy_payload store_bytes
copy_payload-ok handle outsize off from n start bytes rest buf hd hm hs hn ho hb =
    let fits : off + length bytes ≤ length buf = omega arith in
    rw (
      le→leb outsize max_outbuf_size ho,
      hd,
      read_bytes-ok handle.inbuf (start + from) n bytes rest hm hs hn,
      le→leb (off + length bytes) (length buf) fits,
    )
