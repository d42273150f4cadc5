-- ===== src/Pack/Receive.antt =====
-- A receiver of H.264 over RTP (RFC 6184, single NAL unit packets and FU-A fragments), written
-- from the format alone: it gives back the NAL units that a list of packets carries.
use mathlib.Core.Option
use camkit.Base.{
  ℕ, ◌+◌, ◌*◌, ◌/◌, ◌%◌, Option, none, some, List, [], ◌∷◌, ◌++◌, ◌==◌, if◌then◌else◌, drop,
}

-- What the payload of one packet is.
pub data Piece : Type 0 where
  whole : List ℕ → Piece
  first middle last : List ℕ → Piece
  malformed : Piece

-- The FU header follows the FU indicator `b`; the first fragment restores the unit's first byte.
abbrev pub fu_piece : ℕ → List ℕ → Piece
fu_piece b [] = malformed
fu_piece b (f ∷ bytes) =
    if f / 128 == 1
    then first ((b / 32 * 32 + f % 32) ∷ bytes)
    else if f / 64 % 2 == 1
    then last bytes
    else middle bytes

abbrev pub piece : List ℕ → Piece
piece [] = malformed
piece (b ∷ bytes) = if b % 32 == 28 then fu_piece b bytes else whole (b ∷ bytes)

-- `open_unit` is the unit whose fragments are being collected.
abbrev pub receive : (open_unit : Option (List ℕ)) → List Piece → Option (List (List ℕ))
receive none [] = some []
receive none (whole bytes ∷ ps) = Option.map (λ us. bytes ∷ us) (receive none ps)
receive none (first bytes ∷ ps) = receive (some bytes) ps
receive (some acc) (middle bytes ∷ ps) = receive (some (acc ++ bytes)) ps
receive (some acc) (last bytes ∷ ps) = Option.map (λ us. (acc ++ bytes) ∷ us) (receive none ps)
receive _ _ = none

-- The payload of an RTP packet with no CSRC and no extension begins at byte 12.
abbrev pub pieces : List (List ℕ) → List Piece
pieces [] = []
pieces (p ∷ ps) = piece (drop 12 p) ∷ pieces ps

unfoldable pub depacketize : List (List ℕ) → Option (List (List ℕ))
depacketize ps = receive none (pieces ps)
