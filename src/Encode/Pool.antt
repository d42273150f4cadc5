-- ===== src/Encode/Pool.antt =====
-- The pool of frame buffers of src/vpu_encode.c: `myfbarray` and `myfb_index` of `struct enc_handle`.
-- A pointer to an entry of `myfbpool` is its index, and `none` is NULL.
use Prim.Native.Nat.{bit_and}
use camkit.Base.{
  ℕ, zero, suc, ◌+◌, ◌-◌, ◌%◌, ◌^◌, ◌<◌, ◌≡◌, refl, ap, ◌∙◌, sym, true, Option, none, some, List,
  [], ◌∷◌, Outcome, ok, fault, expect, ◌>>=◌, ◌==◌, ltb, if◌then◌else◌, arith, length, get_elem?,
  set, length-set, get_elem?-set_self, holds_below, holds_below_lem, ==_iff, lt→ltb,
}

abbrev pub num_frame_bufs : ℕ
num_frame_bufs = 32

abbrev pub fb_index_mask : ℕ
fb_index_mask = num_frame_bufs - 1

pub record FramePool : Type 0 where
  pub myfbarray : List (Option ℕ)
  pub myfb_index : ℕ

-- `n` pointers from entry `i` on.
abbrev pub pointers : (i n : ℕ) → List (Option ℕ)
pointers i zero = []
pointers i (suc n) = some i ∷ pointers (i + 1) n

unfoldable pub init_framebuf : FramePool
init_framebuf = record { myfbarray = pointers 0 num_frame_bufs; myfb_index = 0 }

-- `++index & mask`, and `--index & mask` on the bits of an `int`.
unfoldable pub next_index : ℕ → ℕ
next_index i = bit_and (i + 1) fb_index_mask

unfoldable pub last_index : ℕ → ℕ
last_index i = bit_and ((i + 2 ^ 32 - 1) % 2 ^ 32) fb_index_mask

unfoldable pub get_framebuf : FramePool → Outcome (Option ℕ × FramePool)
unfolding next_index
get_framebuf pool = do
  myfb ← expect (get_elem? pool.myfbarray pool.myfb_index)
  ok (
    myfb,
    record {
      myfbarray = set pool.myfbarray pool.myfb_index none;
      myfb_index = next_index pool.myfb_index;
    },
  )

unfoldable pub put_framebuf : FramePool → Option ℕ → Outcome FramePool
unfolding last_index
put_framebuf pool myfb =
    let i = last_index pool.myfb_index in
    if ltb i (length pool.myfbarray)
    then ok (record { myfbarray = set pool.myfbarray i myfb; myfb_index = i })
    else fault

back_table : holds_below (λ i. last_index (next_index i) == i) 32 ≡ true
unfolding holds_below last_index next_index
back_table = refl

last_index-next_index : (i : ℕ) → i < 32 → last_index (next_index i) ≡ i
last_index-next_index i h =
    (==_iff _ _).0 (holds_below_lem (λ i. last_index (next_index i) == i) 32 i h back_table)

there_table : holds_below (λ i. next_index (last_index i) == i) 32 ≡ true
unfolding holds_below last_index next_index
there_table = refl

next_index-last_index : (i : ℕ) → i < 32 → next_index (last_index i) ≡ i
next_index-last_index i h =
    (==_iff _ _).0 (holds_below_lem (λ i. next_index (last_index i) == i) 32 i h there_table)

small_table : holds_below (λ i. ltb (last_index i) 32) 32 ≡ true
unfolding holds_below last_index
small_table = refl

last_index_lt : (i : ℕ) → i < 32 → last_index i < 32
last_index_lt i h =
    let t : ltb (last_index i) 32 ≡ true =
      holds_below_lem (λ i. ltb (last_index i) 32) 32 i h small_table in
    ground arith

set-set_same :
    (xs : List (Option ℕ)) (i : ℕ) (v w : Option ℕ)
    → get_elem? xs i ≡ some w
    → set (set xs i v) i w ≡ xs
set-set_same [] i v w h = refl
set-set_same (x ∷ xs) zero v w h = let e : x ≡ w = cc in ap (λ y. y ∷ xs) (sym e)
set-set_same (x ∷ xs) (suc i) v w h = ap (λ t. x ∷ t) (set-set_same xs i v w h)

-- Putting back what was got, NULL included, restores the pool as it was.
pub put_framebuf-get_framebuf :
    (pool : FramePool) (myfb : Option ℕ)
    → length pool.myfbarray ≡ num_frame_bufs
    → pool.myfb_index < num_frame_bufs
    → get_elem? pool.myfbarray pool.myfb_index ≡ some myfb
    → (get_framebuf pool >>= λ got. put_framebuf got.1 got.0) ≡ ok pool
unfolding get_framebuf put_framebuf
put_framebuf-get_framebuf pool myfb len small here =
    let back = last_index-next_index pool.myfb_index small in
    let inside : ltb pool.myfb_index (length (set pool.myfbarray pool.myfb_index none)) ≡ true =
      lt→ltb _ _ (omega (arith, length-set pool.myfbarray pool.myfb_index none)) in
    let same = set-set_same pool.myfbarray pool.myfb_index none myfb here in
    rw (here, back, inside, same) refl

-- A get gives what was put last, and moves the index back to where it was.
pub get_framebuf-put_framebuf :
    (pool : FramePool) (myfb : Option ℕ)
    → length pool.myfbarray ≡ num_frame_bufs
    → pool.myfb_index < num_frame_bufs
    → (after : FramePool) × ((put_framebuf pool myfb >>= get_framebuf) ≡ ok (myfb, after))
      × (after.myfb_index ≡ pool.myfb_index)
      × (length after.myfbarray ≡ num_frame_bufs)
unfolding get_framebuf put_framebuf
get_framebuf-put_framebuf pool myfb len small =
    let i = last_index pool.myfb_index in
    let lt : i < length pool.myfbarray = omega (arith, last_index_lt pool.myfb_index small) in
    (
      record { myfbarray = set (set pool.myfbarray i myfb) i none; myfb_index = next_index i },
      rw (lt→ltb i (length pool.myfbarray) lt, get_elem?-set_self pool.myfbarray i myfb lt) refl,
      next_index-last_index pool.myfb_index small,
      length-set (set pool.myfbarray i myfb) i none ∙ length-set pool.myfbarray i myfb ∙ len,
    )
