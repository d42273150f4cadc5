-- ===== src/Pack/Cut.antt =====
-- How src/rtp_pack.c computes `FU_counter` and `last_FU_size`, in terms of what follows the first
-- fragment.
use native.Mathlib.Nat.{div-add-mod', div-eq_of_lt-le, mod-lt}
use camkit.Base.{
  ℕ, zero, suc, ◌+◌, ◌-◌, ◌*◌, ◌/◌, ◌%◌, ◌≤◌, ◌<◌, ◌≡◌, ap, inl, inr, ◌==◌, if◌then◌else◌, arith,
  Bool-cases,
}

-- How a unit of `n` bytes is cut: what follows the first fragment is so many full fragments, and
-- a last one that has one byte less than `last_FU_size`.
pub record Cut (max n counter last : ℕ) : Type 0 where
  pub count : counter ≡ 1 + (n - 1 - max) / max
  pub size : n - 1 - max + 1 ≡ (n - 1 - max) / max * max + last
  pub pos : 0 < last
  pub small : last ≤ max

cut_exact : (max n t : ℕ) → 0 < max → n ≡ (t + 2) * max → (n - 1 - max) / max ≡ t
cut_exact max n t pos e = div-eq_of_lt-le {k = t} max (omega arith) (omega arith)

cut_rest : (max n t r : ℕ) → 0 < r → r < max → n ≡ (t + 1) * max + r → (n - 1 - max) / max ≡ t
cut_rest max n t r pos lt e = div-eq_of_lt-le {k = t} max (omega arith) (omega arith)

quotient_pos : (max q r : ℕ) → r < max → max < q * max + r → 0 < q
quotient_pos max zero r lt h = absurd (omega arith)
quotient_pos max (suc q) r lt h = omega arith

quotient_gt_one : (max q : ℕ) → max < q * max → 1 < q
quotient_gt_one max zero h = absurd (omega arith)
quotient_gt_one max (suc zero) h = absurd (omega arith)
quotient_gt_one max (suc (suc q)) h = omega arith

Cut-exact : (max n : ℕ) → 0 < max → max < n → n % max ≡ 0 → Cut max n (n / max - 1) max
Cut-exact max n pos more e =
    let q : ℕ = n / max in
    let whole : n ≡ q * max = omega (arith, div-add-mod' n max) in
    let two : 1 < q = quotient_gt_one max q (omega arith) in
    let t : ℕ = q - 2 in
    let split : q * max ≡ (t + 2) * max = ap (λ (k : ℕ). k * max) (omega arith) in
    let k : (n - 1 - max) / max ≡ t = cut_exact max n t pos (omega arith) in
    record { count = rw k (omega arith); size = rw k (omega arith); pos = pos; small = omega arith }

Cut-rest : (max n : ℕ) → 0 < max → max < n → 0 < n % max → Cut max n (n / max) (n % max)
Cut-rest max n pos more e =
    let q : ℕ = n / max in
    let r : ℕ = n % max in
    let below : r < max = mod-lt n pos in
    let whole : n ≡ q * max + r = omega (arith, div-add-mod' n max) in
    let one : 0 < q = quotient_pos max q r below (omega arith) in
    let t : ℕ = q - 1 in
    let split : q * max ≡ (t + 1) * max = ap (λ (k : ℕ). k * max) (omega arith) in
    let k : (n - 1 - max) / max ≡ t = cut_rest max n t r e below (omega arith) in
    record { count = rw k (omega arith); size = rw k (omega arith); pos = e; small = omega arith }

-- The two cases of the code.
pub Cut-divide :
    (max n : ℕ)
    → 0 < max
    → max < n
    → Cut max n
        (if n % max == 0 then n / max - 1 else n / max)
        (if n % max == 0 then max else n % max)
Cut-divide max n pos more = elim (Bool-cases (n % max == 0)) [
  | inl e ↦ rw e (Cut-exact max n pos more (ground arith))
  | inr e ↦ rw e (Cut-rest max n pos more (ground arith))
]
