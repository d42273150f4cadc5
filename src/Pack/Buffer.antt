-- ===== src/Pack/Buffer.antt =====
-- The bytes that src/rtp_pack.c reads from the input and writes to its packet buffer: bit-fields of
-- one byte, fields in network byte order, `memcpy` and `memset`.
use camkit.Base.{
  ℕ, zero, suc, ◌+◌, ◌-◌, ◌*◌, ◌/◌, ◌%◌, ◌^◌, Bool, true, false, List, [], ◌∷◌, Outcome, ok, fault,
  expect, ◌>>=◌, ◌==◌, leb, if◌then◌else◌, length, get_elem?, get_or, set, take, drop,
}

-- `memset(buf, 0, n)` over a buffer of n bytes.
unfoldable pub zeros : ℕ → List ℕ
zeros zero = []
zeros (suc n) = 0 ∷ zeros n

-- Assignment to a bit-field of `width` bits whose lowest bit is bit `lo` of the byte (the layout of
-- a little-endian target).
unfoldable pub set_bits : (lo width v byte : ℕ) → ℕ
set_bits lo width v byte = byte - byte / 2 ^ lo % 2 ^ width * 2 ^ lo + v % 2 ^ width * 2 ^ lo

abbrev pub put_bits : (off lo width v : ℕ) → List ℕ → List ℕ
put_bits off lo width v buf = set buf off (set_bits lo width v (get_or buf off 0))

-- The bytes of `htons(v)` and of `htonl(v)` in memory, on any host.
abbrev pub be16 : ℕ → List ℕ
be16 v = v / 256 % 256 ∷ v % 256 ∷ []

abbrev pub be32 : ℕ → List ℕ
be32 v = v / 2 ^ 24 % 256 ∷ v / 2 ^ 16 % 256 ∷ v / 256 % 256 ∷ v % 256 ∷ []

-- Stores `bytes` over the beginning of a buffer, and from offset `off` on.
abbrev pub overwrite : List ℕ → List ℕ → List ℕ
overwrite [] buf = buf
overwrite (b ∷ bytes) [] = []
overwrite (b ∷ bytes) (x ∷ buf) = b ∷ overwrite bytes buf

abbrev pub write_at : ℕ → List ℕ → List ℕ → List ℕ
write_at zero bytes buf = overwrite bytes buf
write_at (suc off) bytes [] = []
write_at (suc off) bytes (x ∷ buf) = x ∷ write_at off bytes buf

-- The source and the destination of `memcpy`, each with its bounds.
unfoldable pub read_bytes : List ℕ → (src n : ℕ) → Outcome (List ℕ)
read_bytes mem src n = if leb (src + n) (length mem) then ok (take n (drop src mem)) else fault

unfoldable pub store_bytes : ℕ → List ℕ → List ℕ → Outcome (List ℕ)
store_bytes off bytes buf =
    if leb (off + length bytes) (length buf) then ok (write_at off bytes buf) else fault

-- Compares the bytes from `p` on with a pattern, in order, and stops at the first that differs.
unfoldable pub matches : List ℕ → List ℕ → ℕ → Outcome Bool
matches [] mem p = ok true
matches (c ∷ cs) mem p = do
  b ← expect (get_elem? mem p)
  if b == c then matches cs mem (p + 1) else ok false
