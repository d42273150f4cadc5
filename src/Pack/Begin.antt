-- ===== src/Pack/Begin.antt =====
-- The call of `pack_get` that begins a unit of a well-formed stream.
use camkit.Base.{
  ℕ, suc, ◌+◌, ◌-◌, ◌≤◌, ◌<◌, ◌≡◌, refl, ap, ◌∙◌, sym, Bool, true, false, Option, some, List, ◌∷◌,
  ◌++◌, ok, arith, length, get_elem?, drop, get_elem?-drop, drop-drop, length-append, le→leb,
  lt→leb-false, append_assoc,
}
use camkit.Pack.{
  Platform, Timeb, PacParam, PacHandle, ilp32, get_next_nalu, describe_nalu, found, max_outbuf_size,
}
use camkit.Pack.Get.{pack_get, next_seq, sample_time, fu_counter_of, last_fu_size_of}
use camkit.Pack.Packet.{set_common-headed}
use camkit.Pack.Stream.{NalUnit, start_code, code_len, annexb, IsNal}
use camkit.Pack.Scan.{prefix_len-annexb, find_next-annexb, next_at, length_of_drop, drop-suc}
use camkit.Pack.Send.{Holds, single_out, fragment_out, send_single-ok, send_first_fu-ok}

-- A handle between two units: `j` has the fields that do not matter.
abbrev pub ready : PacParam → (start : ℕ) → PacHandle → List ℕ → Option ℕ → (seq : ℕ) → PacHandle
ready params start j mem ptr seq = record {
  inbuf = mem;
  outbuf = j.outbuf;
  outbuf_ptr = j.outbuf_ptr;
  next_nalu_ptr = ptr;
  inbuf_size = length mem;
  fu_counter = j.fu_counter;
  last_fu_size = j.last_fu_size;
  fu_index = j.fu_index;
  inbuf_complete = false;
  nalu_complete = true;
  nalu = j.nalu;
  seq_num = seq;
  ts_start_millisec = start;
  ts_current_sample = j.ts_current_sample;
  params = params;
}

skip_code :
    (mem : List ℕ) (p : ℕ) (long : Bool) (rest : List ℕ)
    → drop p mem ≡ start_code long ++ rest
    → drop (p + code_len long) mem ≡ rest
skip_code mem p false rest h = sym (drop-drop 3 p mem) ∙ ap (λ l. drop 3 l) h
skip_code mem p true rest h = sym (drop-drop 4 p mem) ∙ ap (λ l. drop 4 l) h

-- Where the unit's header lies.
abbrev pub header_at : ℕ → NalUnit → ℕ
header_at p u = p + code_len u.long_code

pub unit_at :
    (mem : List ℕ) (p : ℕ) (u : NalUnit) (us : List NalUnit)
    → drop p mem ≡ annexb (u ∷ us)
    → drop (header_at p u) mem ≡ u.header ∷ (u.body ++ annexb us)
unit_at mem p u us h = skip_code mem p u.long_code (u.header ∷ (u.body ++ annexb us)) h

abbrev pub unit_end : ℕ → NalUnit → ℕ
unit_end p u = header_at p u + 1 + length u.body

module _ (params : PacParam) (start : ℕ) (j : PacHandle) (mem : List ℕ) where
  module _ (p seq : ℕ) (u : NalUnit) (us : List NalUnit) (h : drop p mem ≡ annexb (u ∷ us)) where
    pub get_next_nalu-ready :
        IsNal u
        → get_next_nalu (ready params start j mem (some p) seq)
          ≡ ok (
            record (ready params start j mem (next_at us (unit_end p u)) seq) {
              nalu = describe_nalu (code_len u.long_code) p (unit_end p u) u.header;
            },
            found,
          )
    unfolding get_next_nalu
    get_next_nalu-ready v =
        let here : drop (header_at p u) mem ≡ u.header ∷ (u.body ++ annexb us) =
          unit_at mem p u us h in
        let header : get_elem? mem (header_at p u) ≡ some u.header =
          get_elem?-drop (header_at p u) mem ∙ ap (λ l. get_elem? l 0) here in
        let total : length mem ≡ header_at p u + 1 + length (u.body ++ annexb us) =
          length_of_drop mem (header_at p u) u.header (u.body ++ annexb us) here in
        let enough : length u.body < length mem + 1 =
          omega (arith, length-append u.body (annexb us)) in
        rw (
          prefix_len-annexb mem p u us h,
          find_next-annexb mem us u.body u.header (header_at p u) (unit_end p u) (length mem + 1)
              here v.clean refl enough,
          header,
        )

    -- The handle with the unit found, the sequence number taken and the timestamp set.
    abbrev pub stamped : (ts : ℕ) → PacHandle
    stamped ts = record (ready params start j mem (next_at us (unit_end p u)) (next_seq seq)) {
      nalu = describe_nalu (code_len u.long_code) p (unit_end p u) u.header;
      ts_current_sample = ts;
    }

    pub unit_len : (unit_end p u) - p - code_len u.long_code ≡ suc (length u.body)
    unit_len = omega arith

    stamped-Holds :
        (ts : ℕ) (bytes rest : List ℕ)
        → u.body ++ annexb us ≡ bytes ++ rest
        → Holds (stamped ts) 1 bytes rest (header_at p u)
    unfolding describe_nalu
    stamped-Holds ts bytes rest e =
        let here : drop (header_at p u) mem ≡ u.header ∷ (u.body ++ annexb us) =
          unit_at mem p u us h in
        record {
          at = refl;
          bytes_at = drop-suc mem (header_at p u) here ∙ e;
          within =
              omega (arith, length_of_drop mem (header_at p u) u.header (u.body ++ annexb us) here);
        }

    module _ (f : ℕ → ℕ) (tb : Timeb) where
      abbrev pub platform : Platform
      platform = record { abi = ilp32; u32_of_double = f }

      abbrev pub now : ℕ
      now = sample_time platform tb start

      -- A unit that fits goes out whole.
      pub pack_get-single :
          IsNal u
          → suc (length u.body) ≤ params.max_pkt_len
          → length u.body + 13 ≤ max_outbuf_size
          → pack_get platform tb (ready params start j mem (some p) seq)
            ≡ ok (
              record (stamped now) { outbuf = single_out (stamped now) seq now u.body },
              some ((stamped now).nalu.len + 12),
            )
      unfolding pack_get describe_nalu
      pack_get-single v small fits = rw (
        get_next_nalu-ready v,
        set_common-headed seq now params,
        le→leb (unit_end p u - p - code_len u.long_code) params.max_pkt_len
            (omega (arith, unit_len)),
        send_single-ok (stamped now) seq now u.body (annexb us) (header_at p u)
            (stamped-Holds now u.body (annexb us) refl) unit_len (omega (arith, unit_len)),
      )

      -- Of a longer unit the first fragment goes out.
      pub pack_get-first :
          (first later : List ℕ)
          → IsNal u
          → u.body ≡ first ++ later
          → length first ≡ params.max_pkt_len
          → 0 < params.max_pkt_len
          → params.max_pkt_len + 14 ≤ max_outbuf_size
          → pack_get platform tb (ready params start j mem (some p) seq)
            ≡ ok (
              record (stamped now) {
                outbuf = fragment_out (stamped now) 0 1 0 seq now first;
                fu_counter = fu_counter_of ilp32 (stamped now);
                last_fu_size = last_fu_size_of ilp32 (stamped now);
                fu_index = 1;
                nalu_complete = false;
              },
              some (params.max_pkt_len + 14),
            )
      unfolding pack_get describe_nalu
      pack_get-first first later v e full pos fits =
          let split : length u.body ≡ length first + length later =
            ap length e ∙ length-append first later in
          rw (
            get_next_nalu-ready v,
            set_common-headed seq now params,
            lt→leb-false (unit_end p u - p - code_len u.long_code) params.max_pkt_len
                (omega (arith, unit_len)),
            send_first_fu-ok (stamped now) seq now first (later ++ annexb us) (header_at p u)
                (stamped-Holds now first (later ++ annexb us)
                  (ap (λ l. l ++ annexb us) e ∙ append_assoc first later (annexb us)))
                full pos fits,
          )
