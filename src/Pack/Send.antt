-- ===== src/Pack/Send.antt =====
-- The four ways in which `pack_get` of src/rtp_pack.c fills a packet: with the payload inside the
-- input and the packet inside the buffer, none faults or aborts, and the packet is the one wanted.
use camkit.Base.{
  ℕ, suc, ◌+◌, ◌-◌, ◌*◌, ◌≤◌, ◌<◌, ◌≡◌, true, false, some, List, ◌∷◌, ◌++◌, ok, arith, length, take,
  drop, ne→==-false,
}
use camkit.Pack.Buffer.{write_at}
use camkit.Pack.{PacHandle, ilp32, max_outbuf_size}
use camkit.Pack.Get.{
  send_single, send_first_fu, send_last_fu, send_middle_fu, fu_counter_of, last_fu_size_of,
}
use camkit.Pack.Packet.{
  rtp_packet, blank, length-blank, headed, nalu_byte, fu_byte, single_head, fragment_head,
  copy_payload-ok, take-write_at,
}

-- `n` payload bytes of the current unit, from `from` on, are in the input.
pub record Holds (h : PacHandle) (from : ℕ) (bytes rest : List ℕ) (start : ℕ) : Type 0 where
  pub at : h.nalu.data_ptr ≡ some start
  pub bytes_at : drop (start + from) h.inbuf ≡ bytes ++ rest
  pub within : start + from ≤ length h.inbuf

-- The buffer with all headers, before the payload.
abbrev pub single_buf : PacHandle → (seq ts : ℕ) → List ℕ
single_buf h seq ts =
    rtp_packet 1 seq ts h.params.ssrc
      (nalu_byte h.nalu.forbidden_bit h.nalu.nal_reference_idc h.nalu.nal_unit_type ∷ 0 ∷ blank)

abbrev pub fragment_buf : PacHandle → (marker s e seq ts : ℕ) → List ℕ
fragment_buf h marker s e seq ts = rtp_packet marker seq ts h.params.ssrc (
    nalu_byte h.nalu.forbidden_bit h.nalu.nal_reference_idc 28
    ∷ fu_byte s e h.nalu.nal_unit_type
    ∷ blank)

abbrev pub single_out : PacHandle → (seq ts : ℕ) → List ℕ → List ℕ
single_out h seq ts bytes = write_at 13 bytes (single_buf h seq ts)

abbrev pub fragment_out : PacHandle → (marker s e seq ts : ℕ) → List ℕ → List ℕ
fragment_out h marker s e seq ts bytes = write_at 14 bytes (fragment_buf h marker s e seq ts)

module _ (h : PacHandle) (seq ts : ℕ) (bytes : List ℕ) where
  pub single_packet :
      (n : ℕ)
      → n ≡ 13 + length bytes
      → n ≤ max_outbuf_size
      → take n (single_out h seq ts bytes)
        ≡ rtp_packet 1 seq ts h.params.ssrc
            (nalu_byte h.nalu.forbidden_bit h.nalu.nal_reference_idc h.nalu.nal_unit_type ∷ bytes)
  single_packet n e fits =
      take-write_at 13 n bytes (single_buf h seq ts) e (omega (arith, length-blank))

  pub fragment_packet :
      (marker s e n : ℕ)
      → n ≡ 14 + length bytes
      → n ≤ max_outbuf_size
      → take n (fragment_out h marker s e seq ts bytes)
        ≡ rtp_packet marker seq ts h.params.ssrc (
            nalu_byte h.nalu.forbidden_bit h.nalu.nal_reference_idc 28
            ∷ fu_byte s e h.nalu.nal_unit_type
            ∷ bytes)
  fragment_packet marker s e n eq fits =
      take-write_at 14 n bytes (fragment_buf h marker s e seq ts) eq (omega (arith, length-blank))

module _ (h : PacHandle) (seq ts : ℕ) (bytes rest : List ℕ) (start : ℕ) where
  pub send_single-ok :
      Holds h 1 bytes rest start
      → h.nalu.len ≡ suc (length bytes)
      → h.nalu.len + 12 ≤ max_outbuf_size
      → send_single ilp32 h (headed seq ts h.params.ssrc)
        ≡ ok (
          record h { outbuf = single_out h seq ts bytes; nalu_complete = true },
          some (h.nalu.len + 12),
        )
  unfolding send_single
  send_single-ok m e fits = rw (
    single_head h.nalu.forbidden_bit h.nalu.nal_reference_idc h.nalu.nal_unit_type seq ts
        h.params.ssrc,
    copy_payload-ok h (h.nalu.len + 12) 13 1 (h.nalu.len - 1) start bytes rest (single_buf h seq ts)
        m.at m.bytes_at m.within (omega arith) fits (omega (arith, length-blank)),
  )

  pub send_first_fu-ok :
      Holds h 1 bytes rest start
      → length bytes ≡ h.params.max_pkt_len
      → 0 < h.params.max_pkt_len
      → h.params.max_pkt_len + 14 ≤ max_outbuf_size
      → send_first_fu ilp32 h (headed seq ts h.params.ssrc)
        ≡ ok (
          record h {
            outbuf = fragment_out h 0 1 0 seq ts bytes;
            fu_counter = fu_counter_of ilp32 h;
            last_fu_size = last_fu_size_of ilp32 h;
            fu_index = 1;
            nalu_complete = false;
          },
          some (h.params.max_pkt_len + 14),
        )
  unfolding send_first_fu
  send_first_fu-ok m e pos fits = rw (
    ne→==-false h.params.max_pkt_len 0 (omega arith),
    fragment_head h 0 1 0 seq ts h.params.ssrc (omega arith) (omega arith) (omega arith),
    copy_payload-ok h (h.params.max_pkt_len + 14) 14 1 h.params.max_pkt_len start bytes rest
        (fragment_buf h 0 1 0 seq ts) m.at m.bytes_at m.within e fits (omega (arith, length-blank)),
  )

  pub send_last_fu-ok :
      Holds h (1 + h.fu_index * h.params.max_pkt_len) bytes rest start
      → h.last_fu_size ≡ suc (length bytes)
      → h.last_fu_size - 1 + 14 ≤ max_outbuf_size
      → send_last_fu ilp32 h (headed seq ts h.params.ssrc)
        ≡ ok (
          record h {
            outbuf = fragment_out h 1 0 1 seq ts bytes;
            nalu_complete = true;
            fu_index = 0;
          },
          some (h.last_fu_size - 1 + 14),
        )
  unfolding send_last_fu
  send_last_fu-ok m e fits = rw (
    ne→==-false h.last_fu_size 0 (omega arith),
    fragment_head h 1 0 1 seq ts h.params.ssrc (omega arith) (omega arith) (omega arith),
    copy_payload-ok h (h.last_fu_size - 1 + 14) 14 (1 + h.fu_index * h.params.max_pkt_len)
        (h.last_fu_size - 1) start bytes rest (fragment_buf h 1 0 1 seq ts) m.at m.bytes_at m.within
        (omega arith) fits (omega (arith, length-blank)),
  )

  pub send_middle_fu-ok :
      Holds h (1 + h.fu_index * h.params.max_pkt_len) bytes rest start
      → length bytes ≡ h.params.max_pkt_len
      → h.params.max_pkt_len + 14 ≤ max_outbuf_size
      → send_middle_fu ilp32 h (headed seq ts h.params.ssrc)
        ≡ ok (
          record h { outbuf = fragment_out h 0 0 0 seq ts bytes; fu_index = h.fu_index + 1 },
          some (h.params.max_pkt_len + 14),
        )
  unfolding send_middle_fu
  send_middle_fu-ok m e fits = rw (
    fragment_head h 0 0 0 seq ts h.params.ssrc (omega arith) (omega arith) (omega arith),
    copy_payload-ok h (h.params.max_pkt_len + 14) 14 (1 + h.fu_index * h.params.max_pkt_len)
        h.params.max_pkt_len start bytes rest (fragment_buf h 0 0 0 seq ts) m.at m.bytes_at m.within
        e fits (omega (arith, length-blank)),
  )
