-- ===== src/Pack/Emits.antt =====
-- Calls of `pack_get` that each return a packet, as a relation, and what they make of `drain`.
use mathlib.Core.List.{◌++◌}
use camkit.Base.{ℕ, zero, suc, ◌+◌, ◌<◌, ◌≡◌, none, some, List, [], ◌∷◌, ok, arith, length, take}
use camkit.Pack.{Platform, Timeb, PacHandle}
use camkit.Pack.Get.{pack_get}
use camkit.Pack.Session.{drain}

module _ (pf : Platform) (clock : ℕ → Timeb) where
  -- From the first handle, at that tick, the packets are returned and the last handle is reached.
  pub data Emits : ℕ → PacHandle → List (List ℕ) → PacHandle → Type 0 where
    stop : {t : ℕ} {h : PacHandle} → Emits t h [] h
    emit :
        {t : ℕ} {h g : PacHandle} {p : List ℕ} {ps : List (List ℕ)} (h' : PacHandle) (n : ℕ)
        → pack_get pf (clock t) h ≡ ok (h', some n)
        → take n h'.outbuf ≡ p
        → Emits (t + 1) h' ps g
        → Emits t h (p ∷ ps) g

  pub Emits-append :
      {t : ℕ} {h g k : PacHandle} {ps qs : List (List ℕ)} (u : ℕ)
      → u ≡ t + length ps
      → Emits t h ps g
      → Emits u g qs k
      → Emits t h (ps ++ qs) k
  Emits-append {t} u e stop next = let e' : u ≡ t = omega arith in rw e' at next
  Emits-append u e (emit h' n got here more) next =
      emit h' n got here (Emits-append u (omega arith) more next)

  -- A drain returns the packets up to the first call that returns 0, if its fuel exceeds their
  -- number.
  pub drain-Emits :
      {g g' : PacHandle} (fuel t u : ℕ) (h : PacHandle) (ps : List (List ℕ))
      → Emits t h ps g
      → u ≡ t + length ps
      → pack_get pf (clock u) g ≡ ok (g', none)
      → length ps < fuel
      → drain pf clock fuel t h ≡ ok (g', ps)
  unfolding drain
  drain-Emits zero t u h ps es e last f = absurd (omega arith)
  drain-Emits (suc fuel) t u h _ stop e last f = let e' : t ≡ u = omega arith in rw (e', last)
  drain-Emits (suc fuel) t u h _ (emit {ps} h' n got here more) e last f =
      rw (got, drain-Emits fuel (t + 1) u h' ps more (omega arith) last (omega arith), here)
