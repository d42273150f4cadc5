-- ===== src/Pack/Safety.antt =====
-- What holds of every successful call of `pack_get`, whatever the input and the state: nothing is
-- written outside the buffer, and every packet has a complete header.
use mathlib.Core.Path.{subst₂}
use camkit.Base.{
  ℕ, zero, suc, ◌+◌, ◌-◌, ◌*◌, ◌≤◌, ◌≡◌, refl, ap, ◌∙◌, false, true, Option, some, List, [], ◌∷◌,
  inl, inr, Outcome, ok, expect, require, get_or, >>=-eq-ok, take-set, length-set, ◌>>=◌, ◌==◌, leb,
  if◌then◌else◌, arith, length, take, Bool-cases,
}
use camkit.Pack.Buffer.{write_at, read_bytes, set_bits, put_bits, store_bytes}
use camkit.Pack.{PacHandle, Abi, fu_a, max_outbuf_size}
use camkit.Pack.Get.{
  copy_payload, set_marker, set_nalu_byte, set_fu_header, fu_head, send_single, send_first_fu,
  send_last_fu, send_middle_fu, fu_counter_of, last_fu_size_of,
}
use camkit.Pack.Packet.{length-write_at}

-- A payload that was copied lies in the buffer behind the headers.
record Copied (outsize off : ℕ) (buf out : List ℕ) : Type 0 where
  bytes : List ℕ
  stored : out ≡ write_at off bytes buf
  size : outsize ≤ max_outbuf_size

store_bytes-Copied :
    (outsize off : ℕ) (bytes buf out : List ℕ)
    → outsize ≤ max_outbuf_size
    → store_bytes off bytes buf ≡ ok out
    → Copied outsize off buf out
unfolding store_bytes
store_bytes-Copied outsize off bytes buf out small e =
    elim (Bool-cases (leb (off + length bytes) (length buf))) [
      | inl fits ↦ record { bytes = bytes; stored = ground arith; size = small }
      | inr over ↦ absurd (ground arith)
    ]

copy_payload-Copied :
    (h : PacHandle) (outsize off from n : ℕ) (buf out : List ℕ)
    → copy_payload h outsize off from n buf ≡ ok out
    → Copied outsize off buf out
unfolding copy_payload
copy_payload-Copied h outsize off from n buf out e =
    let (a, checked, e1) = >>=-eq-ok (require (leb outsize max_outbuf_size)) _ e in
    let (start, b, e2) = >>=-eq-ok (expect h.nalu.data_ptr) _ e1 in
    let (bytes, c, e3) = >>=-eq-ok (read_bytes h.inbuf (start + from) n) _ e2 in
    store_bytes-Copied outsize off bytes buf out (require_le checked) e3
  where
    require_le :
        {x : Unit {0}} → require (leb outsize max_outbuf_size) ≡ ok x → outsize ≤ max_outbuf_size
    require_le t = ground arith

take-write_at_before :
    (m off : ℕ) (bytes buf : List ℕ) → m ≤ off → take m (write_at off bytes buf) ≡ take m buf
take-write_at_before zero off bytes buf h = refl
take-write_at_before (suc m) zero bytes buf h = absurd (omega arith)
take-write_at_before (suc m) (suc off) bytes [] h = refl
take-write_at_before (suc m) (suc off) bytes (x ∷ buf) h =
    ap (λ t. x ∷ t) (take-write_at_before m off bytes buf (omega arith))

-- A packet of `n` bytes was built in `h'` over the buffer `buf` of `h`.
pub record Sent (h h' : PacHandle) (buf : List ℕ) (n : ℕ) : Type 0 where
  pub size : n ≤ max_outbuf_size
  pub kept : length h'.outbuf ≡ length buf
  pub header : take 12 h'.outbuf ≡ take 12 (set_marker (if h'.nalu_complete then 1 else 0) buf)
  pub seq : h'.seq_num ≡ h.seq_num
  pub ts : h'.ts_current_sample ≡ h.ts_current_sample

put_bits_kept :
    (off lo width v : ℕ) (buf : List ℕ)
    → 12 ≤ off
    → take 12 (put_bits off lo width v buf) ≡ take 12 buf
put_bits_kept off lo width v buf h = take-set 12 off buf (set_bits lo width v (get_or buf off 0)) h

set_nalu_byte_kept :
    (f nri type : ℕ) (buf : List ℕ) → take 12 (set_nalu_byte f nri type buf) ≡ take 12 buf
set_nalu_byte_kept f nri type buf =
    put_bits_kept 12 0 5 type (put_bits 12 5 2 nri (put_bits 12 7 1 f buf)) (omega arith)
    ∙ put_bits_kept 12 5 2 nri (put_bits 12 7 1 f buf) (omega arith)
    ∙ put_bits_kept 12 7 1 f buf (omega arith)

set_fu_header_kept :
    (e r s type : ℕ) (buf : List ℕ) → take 12 (set_fu_header e r s type buf) ≡ take 12 buf
set_fu_header_kept e r s type buf =
    put_bits_kept 13 0 5 type (put_bits 13 7 1 s (put_bits 13 5 1 r (put_bits 13 6 1 e buf)))
      (omega arith)
    ∙ put_bits_kept 13 7 1 s (put_bits 13 5 1 r (put_bits 13 6 1 e buf)) (omega arith)
    ∙ put_bits_kept 13 5 1 r (put_bits 13 6 1 e buf) (omega arith)
    ∙ put_bits_kept 13 6 1 e buf (omega arith)

length-set_nalu_byte :
    (f nri type : ℕ) (buf : List ℕ) → length (set_nalu_byte f nri type buf) ≡ length buf
length-set_nalu_byte f nri type buf = simp length-set

length-set_fu_header :
    (e r s type : ℕ) (buf : List ℕ) → length (set_fu_header e r s type buf) ≡ length buf
length-set_fu_header e r s type buf = simp length-set

-- The handle and the size that a branch of the code returns.
returned :
    {g h' : PacHandle} {m n : ℕ}
    → ◌≡◌ {A = Outcome (PacHandle × Option ℕ)} (ok (g, some m)) (ok (h', some n))
    → (g ≡ h') × (m ≡ n)
returned e = (cc, cc)

module _ (abi : Abi) (h h' : PacHandle) (buf : List ℕ) (n : ℕ) where
  -- From a head that agrees with the RTP header, and a payload copied behind it.
  Sent-Copied :
      (g : PacHandle) (off outsize : ℕ) (head : List ℕ)
      → ◌≡◌ {A = Outcome (PacHandle × Option ℕ)} (ok (g, some outsize)) (ok (h', some n))
      → Copied outsize off head g.outbuf
      → 12 ≤ off
      → take 12 head ≡ take 12 (set_marker (if g.nalu_complete then 1 else 0) buf)
      → length head ≡ length buf
      → g.seq_num ≡ h.seq_num
      → g.ts_current_sample ≡ h.ts_current_sample
      → Sent h h' buf n
  Sent-Copied g off outsize head e c le same len seq ts =
      let (eg, en) = returned e in
      subst₂ (λ k m. Sent h k buf m) eg en
        (record {
          size = c.size;
          kept = ap length c.stored ∙ length-write_at off c.bytes head ∙ len;
          header = ap (take 12) c.stored ∙ take-write_at_before 12 off c.bytes head le ∙ same;
          seq = seq;
          ts = ts;
        })

  abbrev single_head : List ℕ
  single_head =
      set_nalu_byte h.nalu.forbidden_bit h.nalu.nal_reference_idc h.nalu.nal_unit_type
        (set_marker 1 buf)

  pub send_single-Sent : send_single abi h buf ≡ ok (h', some n) → Sent h h' buf n
  unfolding send_single
  send_single-Sent e =
      let (out, copied, e') =
        >>=-eq-ok (copy_payload h (h.nalu.len + 12) 13 1 (h.nalu.len - 1) single_head) _ e in
      Sent-Copied (record h { outbuf = out; nalu_complete = true }) 13 (h.nalu.len + 12) single_head
        e' (copy_payload-Copied h (h.nalu.len + 12) 13 1 (h.nalu.len - 1) single_head out copied)
        (omega arith)
        (set_nalu_byte_kept h.nalu.forbidden_bit h.nalu.nal_reference_idc h.nalu.nal_unit_type
          (set_marker 1 buf))
        (length-set_nalu_byte h.nalu.forbidden_bit h.nalu.nal_reference_idc h.nalu.nal_unit_type
            (set_marker 1 buf)
          ∙ length-set buf 1 _)
        refl refl

  fu_head_kept : (e s m : ℕ) → take 12 (fu_head abi h e s m buf) ≡ take 12 (set_marker m buf)
  fu_head_kept e s m =
      set_fu_header_kept e 0 s h.nalu.nal_unit_type
        (set_nalu_byte h.nalu.forbidden_bit h.nalu.nal_reference_idc fu_a (set_marker m buf))
      ∙ set_nalu_byte_kept h.nalu.forbidden_bit h.nalu.nal_reference_idc fu_a (set_marker m buf)

  length-fu_head : (e s m : ℕ) → length (fu_head abi h e s m buf) ≡ length buf
  length-fu_head e s m = simp length-set

  -- The three kinds of fragment end alike.
  fragment-Sent :
      (e s m from size outsize : ℕ) (result : List ℕ → PacHandle)
      → ◌>>=◌ {B = PacHandle × Option ℕ}
          (copy_payload h outsize 14 from size (fu_head abi h e s m buf))
          (λ out. ok (result out, some outsize))
        ≡ ok (h', some n)
      → ((out : List ℕ)
          → ((result out).outbuf ≡ out)
            × ((if (result out).nalu_complete then 1 else 0) ≡ m)
            × ((result out).seq_num ≡ h.seq_num)
            × ((result out).ts_current_sample ≡ h.ts_current_sample))
      → Sent h h' buf n
  fragment-Sent e s m from size outsize result eq about =
      let (out, copied, eq') =
        >>=-eq-ok (copy_payload h outsize 14 from size (fu_head abi h e s m buf)) _ eq in
      let (same_out, marker, seq, ts) = about out in
      let c = copy_payload-Copied h outsize 14 from size (fu_head abi h e s m buf) out copied in
      Sent-Copied (result out) 14 outsize (fu_head abi h e s m buf) eq' (rw same_out c)
        (omega arith) (rw marker (fu_head_kept e s m)) (length-fu_head e s m) seq ts

  pub send_first_fu-Sent : send_first_fu abi h buf ≡ ok (h', some n) → Sent h h' buf n
  unfolding send_first_fu
  send_first_fu-Sent e = elim (Bool-cases (h.params.max_pkt_len == 0)) [
    | inl zero_len ↦ absurd (ground arith)
    | inr pos ↦
        fragment-Sent 0 1 0 1 h.params.max_pkt_len (h.params.max_pkt_len + 14)
          (λ out. record h {
            outbuf = out;
            fu_counter = fu_counter_of abi h;
            last_fu_size = last_fu_size_of abi h;
            fu_index = 0 + 1;
            nalu_complete = false;
          })
          (rw pos at e) (λ out. (refl, refl, refl, refl))
  ]

  pub send_last_fu-Sent : send_last_fu abi h buf ≡ ok (h', some n) → Sent h h' buf n
  unfolding send_last_fu
  send_last_fu-Sent e = elim (Bool-cases (h.last_fu_size == 0)) [
    | inl zero_len ↦ absurd (ground arith)
    | inr pos ↦
        fragment-Sent 1 0 1 (1 + h.fu_index * h.params.max_pkt_len) (h.last_fu_size - 1)
          (h.last_fu_size - 1 + 14)
          (λ out. record h { outbuf = out; nalu_complete = true; fu_index = 0 }) (rw pos at e)
          (λ out. (refl, refl, refl, refl))
  ]

  -- A middle fragment leaves the unit incomplete.
  pub send_middle_fu-Sent :
      h.nalu_complete ≡ false → send_middle_fu abi h buf ≡ ok (h', some n) → Sent h h' buf n
  unfolding send_middle_fu
  send_middle_fu-Sent open_unit e =
      fragment-Sent 0 0 0 (1 + h.fu_index * h.params.max_pkt_len) h.params.max_pkt_len
        (h.params.max_pkt_len + 14) (λ out. record h { outbuf = out; fu_index = h.fu_index + 1 }) e
        (λ out. (refl, rw open_unit, refl, refl))
