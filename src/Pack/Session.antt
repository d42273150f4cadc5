-- ===== src/Pack/Session.antt =====
-- How a client uses the packer (`src/simple_demo.c` and `src/cktool.c`): put a buffer, then get
-- packets until `pack_get` returns 0.
use camkit.Base.{
  ℕ, zero, suc, ◌+◌, none, some, List, [], ◌∷◌, Outcome, ok, out_of_fuel, ◌>>=◌, take,
}
use camkit.Pack.{Platform, Timeb, PacHandle}
use camkit.Pack.Get.{pack_get}

-- `clock n` is what `ftime` gives during call number `n`.
module _ (pf : Platform) (clock : ℕ → Timeb) where
  unfoldable pub drain : (fuel tick : ℕ) → PacHandle → Outcome (PacHandle × List (List ℕ))
  drain zero tick handle = out_of_fuel
  drain (suc fuel) tick handle = do
    (h, got) ← pack_get pf (clock tick) handle
    elim got [
      | none ↦ ok (h, [])
      | some n ↦ do (h', packets) ← drain fuel (tick + 1) h; ok (h', take n h.outbuf ∷ packets)
    ]
