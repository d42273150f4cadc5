-- ===== src/Pack/Continue.antt =====
-- The calls of `pack_get` that send the fragments after the first, up to the end of the unit.
use camkit.Base.{
  ℕ, zero, suc, ◌+◌, ◌-◌, ◌*◌, ◌≤◌, ◌<◌, ◌≡◌, refl, ap, ◌∙◌, sym, false, true, Option, some, List,
  ◌++◌, ok, arith, length, take, drop, drop-drop, drop-append_le, take-append-drop, length-take,
  length-drop, length-append, append_assoc, eq→==, ne→==-false,
}
use camkit.Pack.{Platform, Timeb, PacParam, Nalu, PacHandle, ilp32, describe_nalu, max_outbuf_size}
use camkit.Pack.Get.{pack_get, next_seq}
use camkit.Pack.Packet.{set_common-headed}
use camkit.Pack.Header.{fu_indicator_of, type_of_lem}
use camkit.Pack.Stream.{NalUnit}
use camkit.Pack.Spec.{fragment, fragments, seq_after}
use camkit.Pack.Emits.{Emits, stop, emit}
use camkit.Pack.Send.{Holds, fragment_out, fragment_packet, send_last_fu-ok, send_middle_fu-ok}
use camkit.Pack.Begin.{ready}

-- A handle inside a unit that is sent in fragments.
abbrev pub midway :
    PacParam
    → (start : ℕ) → PacHandle
    → List ℕ
    → Option ℕ
    → Nalu
    → (seq ts counter last index : ℕ) → PacHandle
midway params start j mem ptr nalu seq ts counter last index = record {
  inbuf = mem;
  outbuf = j.outbuf;
  outbuf_ptr = j.outbuf_ptr;
  next_nalu_ptr = ptr;
  inbuf_size = length mem;
  fu_counter = counter;
  last_fu_size = last;
  fu_index = index;
  inbuf_complete = false;
  nalu_complete = false;
  nalu = nalu;
  seq_num = seq;
  ts_start_millisec = start;
  ts_current_sample = ts;
  params = params;
}

module _ (f : ℕ → ℕ) (clock : ℕ → Timeb) (params : PacParam) (start : ℕ) (mem : List ℕ)
    (ptr : Option ℕ) (prefix cur next ts counter last : ℕ) (u : NalUnit) (rest : List ℕ)
    (byte : u.header < 256) (room : params.max_pkt_len + 14 ≤ max_outbuf_size) where
  abbrev platform : Platform
  platform = record { abi = ilp32; u32_of_double = f }

  abbrev nalu : Nalu
  nalu = describe_nalu prefix cur next u.header

  abbrev state : PacHandle → (seq index : ℕ) → PacHandle
  state j seq index = midway params start j mem ptr nalu seq ts counter last index

  -- The unread part `r` of the unit lies where the next fragment will be read.
  pub record Remains (index : ℕ) (r : List ℕ) : Type 0 where
    pub bytes_at : drop (cur + prefix + (1 + index * params.max_pkt_len)) mem ≡ r ++ rest
    pub within : cur + prefix + (1 + index * params.max_pkt_len) ≤ length mem

  state-Holds :
      (j : PacHandle) (seq index : ℕ) (r s t : List ℕ)
      → Remains index r
      → r ++ rest ≡ s ++ t
      → Holds (state j seq index) (1 + index * params.max_pkt_len) s t (cur + prefix)
  unfolding describe_nalu
  state-Holds j seq index r s t m e = record {
    at = refl;
    bytes_at = m.bytes_at ∙ e;
    within = m.within;
  }

  pack_get-last :
      (tb : Timeb) (j : PacHandle) (seq index : ℕ) (r : List ℕ)
      → index ≡ counter
      → last ≡ suc (length r)
      → last ≤ params.max_pkt_len
      → Remains index r
      → pack_get platform tb (state j seq index)
        ≡ ok (
          record (state j (next_seq seq) index) {
            outbuf = fragment_out (state j (next_seq seq) index) 1 0 1 seq ts r;
            nalu_complete = true;
            fu_index = 0;
          },
          some (last - 1 + 14),
        )
  unfolding pack_get
  pack_get-last tb j seq index r e l small m = rw (
    set_common-headed seq ts params,
    eq→== index counter e,
    send_last_fu-ok (state j (next_seq seq) index) seq ts r rest (cur + prefix)
        (state-Holds j (next_seq seq) index r r rest m refl) l (omega arith),
  )

  pack_get-middle :
      (tb : Timeb) (j : PacHandle) (seq index : ℕ) (r s t : List ℕ)
      → index < counter
      → length s ≡ params.max_pkt_len
      → Remains index r
      → r ++ rest ≡ s ++ t
      → pack_get platform tb (state j seq index)
        ≡ ok (
          record (state j (next_seq seq) index) {
            outbuf = fragment_out (state j (next_seq seq) index) 0 0 0 seq ts s;
            fu_index = index + 1;
          },
          some (params.max_pkt_len + 14),
        )
  unfolding pack_get
  pack_get-middle tb j seq index r s t lt full m e = rw (
    set_common-headed seq ts params,
    ne→==-false index counter (omega arith),
    send_middle_fu-ok (state j (next_seq seq) index) seq ts s t (cur + prefix)
        (state-Holds j (next_seq seq) index r s t m e) full room,
  )

  -- What goes out is the fragment wanted.
  fragment_sent :
      (j : PacHandle) (seq index marker e n : ℕ) (bytes : List ℕ)
      → n ≡ 14 + length bytes
      → n ≤ max_outbuf_size
      → take n (fragment_out (state j (next_seq seq) index) marker 0 e seq ts bytes)
        ≡ fragment params.max_pkt_len params.ssrc marker 0 e seq ts u bytes
  unfolding describe_nalu
  fragment_sent j seq index marker e n bytes size fits =
      fragment_packet (state j (next_seq seq) index) seq ts bytes marker 0 e n size fits
      ∙ rw (fu_indicator_of u.header byte, type_of_lem u.header byte)

  Remains-next :
      (index : ℕ) (r : List ℕ)
      → Remains index r
      → params.max_pkt_len ≤ length r
      → Remains (index + 1) (drop params.max_pkt_len r)
  Remains-next index r m long =
      let from : ℕ = cur + prefix + (1 + index * params.max_pkt_len) in
      let e : cur + prefix + (1 + (index + 1) * params.max_pkt_len) ≡ from + params.max_pkt_len =
        omega arith in
      let total : length (drop from mem) ≡ length r + length rest =
        ap length m.bytes_at ∙ length-append r rest in
      record {
        bytes_at =
            ap (λ k. drop k mem) e
            ∙ sym (drop-drop params.max_pkt_len from mem)
            ∙ ap (drop params.max_pkt_len) m.bytes_at
            ∙ drop-append_le params.max_pkt_len r rest long;
        within = omega (arith, length-drop from mem, m.within);
      }

  -- The remaining fragments, `k` full ones and the last, are returned by as many calls, and the
  -- handle is ready for the next unit.
  pub Emits-fragments :
      (k tick seq index : ℕ) (j : PacHandle) (r : List ℕ)
      → counter ≡ index + k
      → last ≤ params.max_pkt_len
      → length r + 1 ≡ k * params.max_pkt_len + last
      → 0 < last
      → Remains index r
      → (j' : PacHandle) × Emits platform clock tick
          (state j seq index)
          (fragments params.max_pkt_len params.ssrc k seq ts u r)
          (ready params start j' mem ptr (seq_after (suc k) seq))
  Emits-fragments zero tick seq index j r e small size pos m = (
    record (state j (next_seq seq) index) {
      outbuf = fragment_out (state j (next_seq seq) index) 1 0 1 seq ts r;
      fu_index = 0;
    },
    emit _ (last - 1 + 14)
        (pack_get-last (clock tick) j seq index r (omega arith) (omega arith) small m)
        (fragment_sent j seq index 1 1 (last - 1 + 14) r (omega arith) (omega arith)) stop,
  )
  Emits-fragments (suc k) tick seq index j r e small size pos m =
      let full : length (take params.max_pkt_len r) ≡ params.max_pkt_len =
        omega (arith, length-take params.max_pkt_len r) in
      let parts : r ++ rest ≡ take params.max_pkt_len r ++ (drop params.max_pkt_len r ++ rest) =
        ap (λ l. l ++ rest) (sym (take-append-drop params.max_pkt_len r))
        ∙ append_assoc (take params.max_pkt_len r) (drop params.max_pkt_len r) rest in
      let (j', more) =
        Emits-fragments k (tick + 1) (next_seq seq) (index + 1)
          (record (state j (next_seq seq) index) {
            outbuf =
                fragment_out (state j (next_seq seq) index) 0 0 0 seq ts
                  (take params.max_pkt_len r);
          })
          (drop params.max_pkt_len r) (omega arith) small
          (omega (arith, length-drop params.max_pkt_len r)) pos
          (Remains-next index r m (omega arith)) in
      (
        j',
        emit _ (params.max_pkt_len + 14)
            (pack_get-middle (clock tick) j seq index r (take params.max_pkt_len r)
              (drop params.max_pkt_len r ++ rest) (omega arith) full m parts)
            (fragment_sent j seq index 0 0 (params.max_pkt_len + 14) (take params.max_pkt_len r)
              (omega arith) room)
            more,
      )
