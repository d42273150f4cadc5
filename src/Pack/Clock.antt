-- ===== src/Pack/Clock.antt =====
-- The RTP timestamp that `pack_get` of src/rtp_pack.c gives a new unit.
use camkit.Base.{ℕ, ◌+◌, ◌-◌, ◌*◌, ◌%◌, ◌^◌, ◌<◌, ◌≡◌, ap, ◌∙◌, arith}
use camkit.Pack.{Platform, Timeb, get_current_millisec}
use camkit.Pack.Get.{sample_time}

-- Where a `double` that fits is converted exactly, a unit that begins `elapsed` milliseconds after
-- the handle was opened gets the timestamp 90 * elapsed, across a wrap of the millisecond counter
-- too, as long as this is below 2^32.
pub sample_time-get_current_millisec :
    (pf : Platform) (opened now : Timeb) (elapsed : ℕ)
    → ((x : ℕ) → x < 2 ^ 32 → pf.u32_of_double x ≡ x)
    → 1000 * now.time + now.millitm ≡ 1000 * opened.time + opened.millitm + elapsed
    → 90 * elapsed < 2 ^ 32
    → sample_time pf now (get_current_millisec opened) ≡ 90 * elapsed
unfolding sample_time get_current_millisec
sample_time-get_current_millisec pf opened now elapsed exact later small =
    let d : ((1000 * now.time + now.millitm) % 2 ^ 32
            + 2 ^ 32
            - (1000 * opened.time + opened.millitm) % 2 ^ 32)
          % 2 ^ 32
          * 90
        ≡ 90 * elapsed =
      omega arith in
    ap pf.u32_of_double d ∙ exact (90 * elapsed) small
