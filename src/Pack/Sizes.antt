-- ===== src/Pack/Sizes.antt =====
-- How long the packets are that src/rtp_pack.c makes of a byte stream.
use camkit.Base.{ℕ, ◌+◌, ◌≤◌, ◌<◌, ◌≡◌, List, [], ◌∷◌, arith, length}
use camkit.Pack.Packet.{rtp_packet}

-- Each of the packets has a byte after the header of 12, and at most `bound` bytes in all.
abbrev pub AllWithin : (bound : ℕ) → List (List ℕ) → Type 0
AllWithin bound [] = Unit {0}
AllWithin bound (p ∷ ps) = (12 < length p) × (length p ≤ bound) × AllWithin bound ps

length-rtp_packet :
    (m seq ts ssrc : ℕ) (body : List ℕ) → length (rtp_packet m seq ts ssrc body) ≡ 12 + length body
length-rtp_packet m seq ts ssrc body = omega arith
