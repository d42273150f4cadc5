-- ===== src/Pack/Ends.antt =====
-- The calls of `pack_get` in src/rtp_pack.c at the two ends of a session: before any `pack_put`, and
-- after the call that found no further unit.
use camkit.Base.{
  ℕ, ◌≡◌, refl, ap, ◌∙◌, sym, Bool, true, false, Option, none, some, List, Outcome, ok, fault,
  ◌>>=◌, >>=-eq-ok, ◌==◌, leb, if◌then◌else◌,
}
use camkit.Pack.Buffer.{zeros}
use camkit.Pack.{
  Platform, Timeb, PacHandle, PacParam, Abi, max_outbuf_size, pack_open, get_next_nalu, Next,
  no_more, no_startcode, found,
}
use camkit.Pack.Get.{
  pack_get, set_common, send_single, send_first_fu, send_last_fu, send_middle_fu, begin_nalu,
  continue_nalu, after_search,
}

-- A handle that `pack_open` has made, and that no `pack_put` has filled: the first `pack_get` takes
-- it for one in the middle of a unit, and copies -1 bytes.
pub pack_get-pack_open :
    (pf : Platform) (tb now : Timeb) (params : PacParam) (buf : List ℕ) (h : PacHandle)
    → pack_open true (some buf) tb params ≡ some h
    → pack_get pf now h ≡ fault
unfolding pack_open pack_get continue_nalu send_last_fu
pack_get-pack_open pf tb now params buf h e = rw⁻¹ (some-inj e) refl
  where
    some-inj : {A : Type 0} {a b : A} → ◌≡◌ {A = Option A} (some a) (some b) → a ≡ b
    some-inj t = cc

abbrev Ended : PacHandle → Outcome (PacHandle × Option ℕ) → Type 0
Ended h' m = m ≡ ok (h', none) → h'.inbuf_complete ≡ true

-- A packet that is sent is not the end.
packet-Ended :
    (h' : PacHandle) (m : Outcome (List ℕ)) (result : List ℕ → PacHandle) (n : ℕ)
    → Ended h' (m >>= λ out. ok (result out, some n))
packet-Ended h' m result n e = let (out, copied, e1) = >>=-eq-ok m _ e in cc

either-Ended :
    (h' : PacHandle) (b : Bool) (m n : Outcome (PacHandle × Option ℕ))
    → Ended h' m
    → Ended h' n
    → Ended h' (if b then m else n)
either-Ended h' true m n em en = em
either-Ended h' false m n em en = en

fault-Ended : (h' : PacHandle) → Ended h' fault
fault-Ended h' e = cc

module _ (abi : Abi) (h h' : PacHandle) (buf : List ℕ) where
  send_single-Ended : Ended h' (send_single abi h buf)
  unfolding send_single
  send_single-Ended e = packet-Ended h' _ _ _ e

  send_first_fu-Ended : Ended h' (send_first_fu abi h buf)
  unfolding send_first_fu
  send_first_fu-Ended =
      either-Ended h' (h.params.max_pkt_len == 0) fault _ (fault-Ended h')
        (λ e. packet-Ended h' _ _ _ e)

  send_last_fu-Ended : Ended h' (send_last_fu abi h buf)
  unfolding send_last_fu
  send_last_fu-Ended =
      either-Ended h' (h.last_fu_size == 0) fault _ (fault-Ended h') (λ e. packet-Ended h' _ _ _ e)

  send_middle_fu-Ended : Ended h' (send_middle_fu abi h buf)
  unfolding send_middle_fu
  send_middle_fu-Ended e = packet-Ended h' _ _ _ e

module _ (pf : Platform) (tb : Timeb) (h' : PacHandle) (buf : List ℕ) where
  continue_nalu-Ended : (h : PacHandle) → Ended h' (continue_nalu pf h buf)
  unfolding continue_nalu
  continue_nalu-Ended h =
      either-Ended h' (h.fu_index == h.fu_counter) _ _ (send_last_fu-Ended pf.abi _ h' _)
        (send_middle_fu-Ended pf.abi _ h' _)

  after_search-Ended : (g : PacHandle) (r : Next) → Ended h' (after_search pf tb buf g r)
  unfolding after_search begin_nalu
  after_search-Ended g found e =
      either-Ended h' (leb g.nalu.len g.params.max_pkt_len) _ _ (send_single-Ended pf.abi _ h' _)
        (send_first_fu-Ended pf.abi _ h' _) e
  after_search-Ended g no_more e = cc
  after_search-Ended g no_startcode e = cc

pack_get-Ended : (pf : Platform) (tb : Timeb) (h h' : PacHandle) → Ended h' (pack_get pf tb h)
unfolding pack_get
pack_get-Ended pf tb h h' e = go h.inbuf_complete h.nalu_complete refl e
  where
    buf : List ℕ
    buf = set_common pf.abi h.params (zeros max_outbuf_size)

    go :
        (done complete : Bool)
        → h.inbuf_complete ≡ done
        → Ended h' (
            if done
            then ok (h, none)
            else if complete
            then get_next_nalu h >>= (λ r. after_search pf tb buf r.0 r.1)
            else continue_nalu pf h buf)
    go true complete d t = let same : h ≡ h' = cc in ap (λ k. k.inbuf_complete) (sym same) ∙ d
    go false true d t =
        let (r, searched, t1) = >>=-eq-ok (get_next_nalu h) _ t in
        after_search-Ended pf tb h' buf r.0 r.1 t1
    go false false d t = continue_nalu-Ended pf tb h' buf h t

stays_ended :
    (pf : Platform) (tb : Timeb) (h : PacHandle)
    → h.inbuf_complete ≡ true
    → pack_get pf tb h ≡ ok (h, none)
unfolding pack_get
stays_ended pf tb h e =
    ap
      (λ done.
        if done
        then ok (h, none)
        else if h.nalu_complete
        then get_next_nalu h
          >>= (λ r. after_search pf tb (set_common pf.abi h.params (zeros max_outbuf_size)) r.0 r.1)
        else continue_nalu pf h (set_common pf.abi h.params (zeros max_outbuf_size)))
      e

-- Once a call has returned 0, with no further unit or with no start code where one is due, every
-- later call returns 0 as well and leaves the handle as it is.
pub pack_get-again :
    (pf : Platform) (tb later : Timeb) (h h' : PacHandle)
    → pack_get pf tb h ≡ ok (h', none)
    → pack_get pf later h' ≡ ok (h', none)
pack_get-again pf tb later h h' e = stays_ended pf later h' (pack_get-Ended pf tb h h' e)
