-- ===== src/Pack/Header.antt =====
-- The three fields of a NAL unit's first byte, as src/rtp_pack.c takes them apart and writes them
-- back, over all bytes.
use Prim.Native.Nat.{bit_and}
use camkit.Base.{
  ℕ, ◌+◌, ◌*◌, ◌/◌, ◌%◌, ◌^◌, ◌<◌, ◌≡◌, refl, true, ◌==◌, ==_iff, holds_below, holds_below_lem,
}
use camkit.Pack.Packet.{nalu_byte}

abbrev pub f_of : ℕ → ℕ
f_of b = bit_and b 0x80 / 2 ^ 7

abbrev pub nri_of : ℕ → ℕ
nri_of b = bit_and b 0x60 / 2 ^ 5

abbrev pub type_of : ℕ → ℕ
type_of b = bit_and b 0x1f

rebuilt_table : holds_below (λ b. nalu_byte (f_of b) (nri_of b) (type_of b) == b) 256 ≡ true
unfolding holds_below
rebuilt_table = refl

-- The fields written back give the byte again.
pub nalu_byte_rebuilt : (b : ℕ) → b < 256 → nalu_byte (f_of b) (nri_of b) (type_of b) ≡ b
nalu_byte_rebuilt b h = (==_iff _ b).0 (holds_below_lem _ 256 b h rebuilt_table)

indicator_table : holds_below (λ b. nalu_byte (f_of b) (nri_of b) 28 == b / 32 * 32 + 28) 256 ≡ true
unfolding holds_below
indicator_table = refl

-- The FU indicator has the upper three bits of the byte, and type 28.
pub fu_indicator_of : (b : ℕ) → b < 256 → nalu_byte (f_of b) (nri_of b) 28 ≡ b / 32 * 32 + 28
fu_indicator_of b h = (==_iff _ _).0 (holds_below_lem _ 256 b h indicator_table)

type_table : holds_below (λ b. type_of b % 32 == b % 32) 256 ≡ true
unfolding holds_below
type_table = refl

pub type_of_lem : (b : ℕ) → b < 256 → type_of b % 32 ≡ b % 32
type_of_lem b h = (==_iff _ _).0 (holds_below_lem _ 256 b h type_table)
