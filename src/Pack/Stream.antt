-- ===== src/Pack/Stream.antt =====
-- H.264 byte streams (Annex B), independently of src/rtp_pack.c: NAL units, each behind a start
-- code of three or four bytes, and what a unit may hold so that its end can be found.
use camkit.Base.{ℕ, ◌%◌, ◌<◌, ◌≡◌, ◌≢◌, Bool, true, false, not, ◌&&◌, List, [], ◌∷◌, ◌++◌, ◌==◌}

pub record NalUnit : Type 0 where
  pub long_code : Bool
  pub header : ℕ
  pub body : List ℕ

abbrev pub unit_bytes : NalUnit → List ℕ
unit_bytes u = u.header ∷ u.body

abbrev pub start_code : Bool → List ℕ
start_code false = 0 ∷ 0 ∷ 1 ∷ []
start_code true = 0 ∷ 0 ∷ 0 ∷ 1 ∷ []

abbrev pub code_len : Bool → ℕ
code_len false = 3
code_len true = 4

abbrev pub annexb : List NalUnit → List ℕ
annexb [] = []
annexb (u ∷ us) = start_code u.long_code ++ (u.header ∷ (u.body ++ annexb us))

-- Whether a start code could begin at the byte `x` that `xs` follows: 0 0 1, or a last byte 0.
abbrev pub suspect : ℕ → List ℕ → Bool
suspect x [] = x == 0
suspect x (y ∷ []) = false
suspect x (y ∷ z ∷ r) = x == 0 && y == 0 && z == 1

-- Emulation prevention: no byte of the unit is suspect.
abbrev pub is_clean : List ℕ → Bool
is_clean [] = true
is_clean (x ∷ xs) = not (suspect x xs) && is_clean xs

-- Type 28 stands for a fragment in a packet, and for nothing in H.264 itself.
pub record IsNal (u : NalUnit) : Type 0 where
  pub byte : u.header < 256
  pub not_fragment : u.header % 32 ≢ 28
  pub clean : is_clean u.body ≡ true

abbrev pub AllNal : List NalUnit → Type 0
AllNal [] = Unit {0}
AllNal (u ∷ us) = IsNal u × AllNal us
