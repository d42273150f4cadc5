-- ===== src/Pack/EveryCall.antt =====
-- What every call of `pack_get` in src/rtp_pack.c that returns a packet has done, for any input
-- and any state of the handle.
use mathlib.Core.Path.{subst}
use camkit.Base.{
  ℕ, ◌+◌, ◌*◌, ◌≤◌, ◌≡◌, refl, ap, ◌∙◌, false, true, Bool, Option, none, some, List, [], inl, inr,
  Outcome, ok, expect, ◌>>=◌, >>=-eq-ok, leb, if◌then◌else◌, arith, length, get_elem?, take,
  Bool-cases, length-set, ◌==◌,
}
use camkit.Pack.Buffer.{zeros, set_bits}
use camkit.Pack.{
  Platform, Timeb, PacHandle, Abi, ilp32, lp64, max_outbuf_size, get_next_nalu, prefix_len,
  find_next, describe_nalu, Next, no_more, no_startcode, found,
}
use camkit.Pack.Get.{
  pack_get, set_common, set_marker, set_timestamp, set_seq_no, begin_nalu, continue_nalu,
  after_search, next_seq, sample_time,
}
use camkit.Pack.Packet.{rtp_packet, length-write_at, length-zeros}
use camkit.Pack.Safety.{
  Sent, send_single-Sent, send_first_fu-Sent, send_last_fu-Sent, send_middle_fu-Sent,
}

-- Looking for the next unit leaves these fields alone.
pub record SameSession (h g : PacHandle) : Type 0 where
  pub seq : g.seq_num ≡ h.seq_num
  pub params : g.params ≡ h.params

pub get_next_nalu-SameSession :
    (h g : PacHandle) (r : Next) → get_next_nalu h ≡ ok (g, r) → SameSession h g
unfolding get_next_nalu
get_next_nalu-SameSession h g r e = start h.next_nalu_ptr e
  where
    with_prefix :
        (cur : ℕ) (prefix : Option ℕ)
        → ◌≡◌ {A = Outcome (PacHandle × Next)}
            (elim prefix [
              | none ↦ ok (h, no_startcode)
              | some n ↦ find_next h.inbuf h.inbuf_size (h.inbuf_size + 1) (cur + n) >>= λ t.
                  expect (get_elem? h.inbuf (cur + n)) >>= λ header.
                  ok
                    (record h { next_nalu_ptr = t.0; nalu = describe_nalu n cur t.1 header }, found)
            ])
            (ok (g, r))
        → SameSession h g
    with_prefix cur none e = record { seq = cc; params = cc }
    with_prefix cur (some n) e =
        let (t, a, e1) =
          >>=-eq-ok (find_next h.inbuf h.inbuf_size (h.inbuf_size + 1) (cur + n)) _ e in
        let (header, b, e2) = >>=-eq-ok (expect (get_elem? h.inbuf (cur + n))) _ e1 in
        record { seq = cc; params = cc }

    start :
        (ptr : Option ℕ)
        → ◌≡◌ {A = Outcome (PacHandle × Next)}
            (elim ptr [
              | none ↦ ok (h, no_more)
              | some cur ↦ prefix_len h.inbuf cur >>= λ prefix. elim prefix [
                | none ↦ ok (h, no_startcode)
                | some n ↦ find_next h.inbuf h.inbuf_size (h.inbuf_size + 1) (cur + n) >>= λ t.
                    expect (get_elem? h.inbuf (cur + n)) >>= λ header.
                    ok (
                      record h { next_nalu_ptr = t.0; nalu = describe_nalu n cur t.1 header },
                      found,
                    )
              ]
            ])
            (ok (g, r))
        → SameSession h g
    start none e = record { seq = cc; params = cc }
    start (some cur) e =
        let (prefix, a, e1) = >>=-eq-ok (prefix_len h.inbuf cur) _ e in with_prefix cur prefix e1

-- The buffer before the kind of packet is known.
abbrev headed_with : Abi → (seq ts : ℕ) → PacHandle → List ℕ
headed_with abi seq ts h =
    set_timestamp abi ts (set_seq_no seq (set_common abi h.params (zeros max_outbuf_size)))

-- What a call that returns `n` has left, with the header not yet spelled out.
record Delivered (abi : Abi) (h h' : PacHandle) (n : ℕ) : Type 0 where
  size : n ≤ max_outbuf_size
  seq : h'.seq_num ≡ next_seq h.seq_num
  kept : length h'.outbuf ≡ max_outbuf_size
  header :
      take 12 h'.outbuf
      ≡ take 12 (
          set_marker
            (if h'.nalu_complete then 1 else 0)
            (headed_with abi h.seq_num h'.ts_current_sample h))

length-headed_with :
    (abi : Abi) (seq ts : ℕ) (h : PacHandle) → length (headed_with abi seq ts h) ≡ max_outbuf_size
unfolding set_common
length-headed_with abi seq ts h = simp (length-write_at, length-set, length-zeros)

module _ (pf : Platform) (tb : Timeb) (h h' : PacHandle) (n : ℕ) where
  -- `g` is the handle of the call with what it changed before the packet was filled.
  Sent-Delivered :
      (g : PacHandle) (ts : ℕ)
      → g.seq_num ≡ next_seq h.seq_num
      → g.ts_current_sample ≡ ts
      → Sent g h' (headed_with pf.abi h.seq_num ts h) n
      → Delivered pf.abi h h' n
  Sent-Delivered g ts seq same s = record {
    size = s.size;
    seq = s.seq ∙ seq;
    kept = s.kept ∙ length-headed_with pf.abi h.seq_num ts h;
    header = rw (s.ts ∙ same) s.header;
  }

  continue_nalu-Delivered :
      h.nalu_complete ≡ false
      → continue_nalu pf h (set_common pf.abi h.params (zeros max_outbuf_size)) ≡ ok (h', some n)
      → Delivered pf.abi h h' n
  unfolding continue_nalu
  continue_nalu-Delivered open_unit e =
      let g = record h { seq_num = next_seq h.seq_num } in
      let buf = headed_with pf.abi h.seq_num h.ts_current_sample h in
      Sent-Delivered g h.ts_current_sample refl refl
        (elim (Bool-cases (h.fu_index == h.fu_counter)) [
          | inl last ↦ send_last_fu-Sent pf.abi g h' buf n (rw last at e)
          | inr middle ↦ send_middle_fu-Sent pf.abi g h' buf n open_unit (rw middle at e)
        ])

  begin_nalu-Delivered :
      (g : PacHandle)
      → SameSession h g
      → begin_nalu pf tb g (set_common pf.abi h.params (zeros max_outbuf_size)) ≡ ok (h', some n)
      → Delivered pf.abi h h' n
  unfolding begin_nalu
  begin_nalu-Delivered g same e =
      let ts = sample_time pf tb g.ts_start_millisec in
      let g' = record g { seq_num = next_seq g.seq_num; ts_current_sample = ts } in
      let buf = headed_with pf.abi g.seq_num ts h in
      let sent : Sent g' h' buf n = elim (Bool-cases (leb g.nalu.len g.params.max_pkt_len)) [
        | inl whole ↦ send_single-Sent pf.abi g' h' buf n (rw whole at e)
        | inr long ↦ send_first_fu-Sent pf.abi g' h' buf n (rw long at e)
      ] in
      Sent-Delivered g' ts (ap next_seq same.seq) refl
        (subst (λ q. Sent g' h' (headed_with pf.abi q ts h) n) same.seq sent)

  after_search-Delivered :
      (g : PacHandle) (r : Next)
      → SameSession h g
      → after_search pf tb (set_common pf.abi h.params (zeros max_outbuf_size)) g r
        ≡ ok (h', some n)
      → Delivered pf.abi h h' n
  unfolding after_search
  after_search-Delivered g found same e = begin_nalu-Delivered g same e
  after_search-Delivered g no_more same e = cc
  after_search-Delivered g no_startcode same e = cc

  pack_get-Delivered : pack_get pf tb h ≡ ok (h', some n) → Delivered pf.abi h h' n
  unfolding pack_get
  pack_get-Delivered e = go h.inbuf_complete h.nalu_complete refl e
    where
      buf : List ℕ
      buf = set_common pf.abi h.params (zeros max_outbuf_size)

      go :
          (done complete : Bool)
          → h.nalu_complete ≡ complete
          → ◌≡◌ {A = Outcome (PacHandle × Option ℕ)}
              (if done
                then ok (h, none)
                else if complete
                then get_next_nalu h >>= (λ r. after_search pf tb buf r.0 r.1)
                else continue_nalu pf h buf)
              (ok (h', some n))
          → Delivered pf.abi h h' n
      go true complete c t = cc
      go false true c t =
          let (r, searched, e1) = >>=-eq-ok (get_next_nalu h) _ t in
          after_search-Delivered r.0 r.1 (get_next_nalu-SameSession h r.0 r.1 searched) e1
      go false false c t = continue_nalu-Delivered c t

marker_byte : (m : ℕ) → m ≤ 1 → set_bits 7 1 m 96 ≡ m * 128 + 96
unfolding set_bits
marker_byte m small = omega arith

-- The first 12 bytes of a packet, as an RTP receiver reads them.
header-ilp32 :
    (m seq ts : ℕ) (h : PacHandle)
    → m ≤ 1
    → take 12 (set_marker m (headed_with ilp32 seq ts h)) ≡ rtp_packet m seq ts h.params.ssrc []
unfolding set_common zeros set_bits
header-ilp32 m seq ts h small = rw (marker_byte m small)

header-lp64 :
    (m seq ts : ℕ) (h : PacHandle)
    → m ≤ 1
    → take 12 (set_marker m (headed_with lp64 seq ts h)) ≡ rtp_packet m seq 0 ts []
unfolding set_common zeros set_bits
header-lp64 m seq ts h small = rw (marker_byte m small)

abbrev marker_of : PacHandle → ℕ
marker_of h = if h.nalu_complete then 1 else 0

marker_of_le : (h : PacHandle) → marker_of h ≤ 1
marker_of_le h = elim (Bool-cases h.nalu_complete) [
  | inl t ↦ rw t (omega arith)
  | inr f ↦ rw f (omega arith)
]

module _ (pf : Platform) (tb : Timeb) (h h' : PacHandle) (n : ℕ) where
  -- Where `unsigned long` has 4 bytes, a call of `pack_get` that returns a packet, for any input
  -- and state: its size is within the buffer, whose length is that of the buffer cleared at the
  -- start; the sequence number has advanced by one, modulo 2^16; the packet begins with the
  -- 12-byte RTP header of version 2 and payload type 96 with the old sequence number, the current
  -- timestamp and the SSRC, and with the marker exactly when the packet ends its unit.
  pub pack_get-rtp_packet :
      pf.abi ≡ ilp32
      → pack_get pf tb h ≡ ok (h', some n)
      → (n ≤ max_outbuf_size)
        × (length h'.outbuf ≡ max_outbuf_size)
        × (h'.seq_num ≡ next_seq h.seq_num)
        × (take 12 h'.outbuf
            ≡ rtp_packet
                (if h'.nalu_complete then 1 else 0)
                h.seq_num
                h'.ts_current_sample
                h.params.ssrc
                [])
  pack_get-rtp_packet abi e =
      let d = pack_get-Delivered pf tb h h' n e in
      (
        d.size,
        d.kept,
        d.seq,
        d.header
            ∙ ap
                (λ a.
                  take 12
                    (set_marker (marker_of h') (headed_with a h.seq_num h'.ts_current_sample h)))
                abi
            ∙ header-ilp32 (marker_of h') h.seq_num h'.ts_current_sample h (marker_of_le h'),
      )

  -- Where `unsigned long` has 8 bytes, every packet that `pack_get` returns begins with an RTP
  -- header whose timestamp is 0 and whose SSRC is the timestamp: the fields of `rtp_header` do not
  -- lie where the comments on them say.
  pub pack_get-lp64 :
      pf.abi ≡ lp64
      → pack_get pf tb h ≡ ok (h', some n)
      → take 12 h'.outbuf
        ≡ rtp_packet (if h'.nalu_complete then 1 else 0) h.seq_num 0 h'.ts_current_sample []
  pack_get-lp64 abi e =
      let d = pack_get-Delivered pf tb h h' n e in
      d.header
      ∙ ap
          (λ a.
            take 12 (set_marker (marker_of h') (headed_with a h.seq_num h'.ts_current_sample h)))
          abi
      ∙ header-lp64 (marker_of h') h.seq_num h'.ts_current_sample h (marker_of_le h')
