-- ===== src/Encode/Memory.antt =====
-- The frame buffers of src/vpu_encode.c, from `framebuf_alloc` to `encoder_free_framebuffer`.
use camkit.Base.{
  ℕ, zero, suc, ◌+◌, ◌*◌, ◌/◌, ◌-◌, ◌^◌, Bool, true, false, not, Option, none, some, List, [], ◌∷◌,
  ltb, if◌then◌else◌, length,
}
use camkit.Base.Resources.{Run, acquire, hold, release, result, ◌>>=◌, ◌>>◌}
use camkit.Encode.Pool.{num_frame_bufs}
use camkit.Ffmpeg.Encode.{EncParam}
use native.Mathlib.Decide.{ℕ_discrete}

-- What `encode_open` takes; a frame buffer has physical memory and its mapping.
pub data Resource : Type 0 where
  handle_memory vpu stream_phys stream_virt encoder fb_array pool_array : Resource
  frame_phys frame_virt : ℕ → Resource

unfoldable pub Resource-discrete : Discrete Resource
Resource-discrete = hlevel (ℕ_discrete)

-- `struct my_frame_buf`: `size`, `phy_addr` and `virt_uaddr` are those of `desc`.
pub record MyFrameBuf : Type 0 where
  pub size : ℕ
  pub phy_addr : ℕ
  pub virt_uaddr : ℕ
  pub addr_y : ℕ
  pub addr_cb : ℕ
  pub addr_cr : ℕ
  pub stride_y : ℕ
  pub stride_c : ℕ

-- What `IOGetVirtMem` gives: -1, 0, or the address of a mapping.
pub data VirtMem : Type 0 where
  minus_one null : VirtMem
  mapped : ℕ → VirtMem

-- The answers for the frame buffers: `IOGetPhyMem` and `IOGetVirtMem` by the number of the buffer;
-- `virt_signed` tells whether the field `virt_uaddr` of the library's `vpu_mem_desc` is signed.
pub record FrameAnswers : Type 0 where
  pub calloc_fb : Bool
  pub calloc_pool : Bool
  pub get_phy_mem : ℕ → Option ℕ
  pub get_virt_mem : ℕ → VirtMem
  pub virt_signed : Bool
  pub register : Bool

-- The sizes are those of buffers that an `int` can address.
abbrev pub frame_of : (phy virt stride_y height : ℕ) → MyFrameBuf
frame_of phy virt stride_y height =
    let chroma = stride_y / 2 * height / 2 in
    record {
      size = stride_y * height + chroma * 2;
      phy_addr = phy;
      virt_uaddr = virt;
      addr_y = phy;
      addr_cb = phy + stride_y * height;
      addr_cr = phy + stride_y * height + chroma;
      stride_y = stride_y;
      stride_c = stride_y / 2;
    }

-- `virt_uaddr <= 0`: an unsigned field holds 2 ^ 32 - 1 for -1, and passes the test without a mapping.
unfoldable pub map_frame :
    FrameAnswers → (i : ℕ) → (phy stride_y height : ℕ) → Run Resource (Option MyFrameBuf)
map_frame a i phy stride_y height = elim (a.get_virt_mem i) [
  | null ↦ hold (frame_phys i) >> release (frame_phys i) >> result none
  | minus_one ↦
      if a.virt_signed
      then (hold (frame_phys i) >> release (frame_phys i) >> result none)
      else (hold (frame_phys i) >> result (some (frame_of phy (2 ^ 32 - 1) stride_y height)))
  | mapped virt ↦
      hold (frame_phys i)
      >> hold (frame_virt i)
      >> result (some (frame_of phy virt stride_y height))
]

-- `i` buffers were got from the fresh pool before: it has 32, and gives NULL after them. `mvCol` is 0
-- in every call.
unfoldable pub framebuf_alloc :
    FrameAnswers → (i : ℕ) → (stride_y height : ℕ) → Run Resource (Option MyFrameBuf)
unfolding map_frame
framebuf_alloc a i stride_y height =
    if not (ltb i num_frame_bufs) then result none else elim (a.get_phy_mem i) [
      | none ↦ result none
      | some phy ↦ map_frame a i phy stride_y height
    ]

-- On a buffer that was allocated.
unfoldable pub framebuf_free : (i : ℕ) → Run Resource (Unit {0})
framebuf_free i = release (frame_virt i) >> release (frame_phys i)

-- The loop over `pfbpool`: the `n` allocated buffers from `i` on; the others are NULL.
unfoldable pub free_from : (i n : ℕ) → Run Resource (Unit {0})
unfolding framebuf_free
free_from i zero = result tt
free_from i (suc n) = framebuf_free i >> free_from (i + 1) n

-- The loop of `encoder_allocate_framebuffer`: the buffers made, and whether all are.
unfoldable pub alloc_from :
    FrameAnswers → (stride_y height i n : ℕ) → Run Resource (List MyFrameBuf × Bool)
unfolding framebuf_alloc
alloc_from a stride_y height i zero = result ([], true)
alloc_from a stride_y height i (suc n) =
    let rest = alloc_from a stride_y height (i + 1) n in
    framebuf_alloc a i stride_y height >>= λ made. elim made [
      | none ↦ result ([], false)
      | some frame ↦ rest >>= λ others. result (frame ∷ others.0, others.1)
    ]

-- The label `err`, with `n` buffers allocated.
unfoldable pub undo : (n : ℕ) → Run Resource (Option (List MyFrameBuf × MyFrameBuf))
unfolding free_from
undo n = do free_from 0 n; release fb_array; release pool_array; result none

-- `(x + 15) & ~15`
abbrev pub align16 : ℕ → ℕ
align16 x = (x + 15) / 16 * 16

abbrev pub extra_count : (mvc_extension : Bool) → ℕ
extra_count true = 4
extra_count false = 2

abbrev pub AllFrames : Type 0
AllFrames = List MyFrameBuf × MyFrameBuf

-- After the allocation of the single frame buffer for the source.
unfoldable pub with_source : List MyFrameBuf → Option MyFrameBuf → Run Resource (Option AllFrames)
unfolding undo
with_source made none = undo (length made)
with_source made (some source) = result (some (made, source))

-- After the loop.
unfoldable pub after_loop :
    FrameAnswers
    → EncParam
    → (registered : Bool) → List MyFrameBuf × Bool
    → Run Resource (Option AllFrames)
unfolding undo with_source framebuf_alloc
after_loop a param registered made =
    if not made.1
    then undo (length made.0)
    else if not registered
    then undo (length made.0)
    else (framebuf_alloc a (length made.0) (align16 param.src_picwidth)
          (align16 param.src_picheight)
        >>= with_source made.0)

-- The buffers of the encoder and the one of the source; `none` stands for -1.
unfoldable pub encoder_allocate_framebuffer :
    FrameAnswers
    → EncParam
    → (min_fb_count : ℕ) → (mvc_extension : Bool) → Run Resource (Option AllFrames)
unfolding alloc_from after_loop
encoder_allocate_framebuffer a param min_fb_count mvc_extension =
    let count : ℕ = min_fb_count + extra_count mvc_extension in
    let loop = alloc_from a (align16 param.enc_picwidth) (align16 param.enc_picheight) 0 count in
    acquire fb_array a.calloc_fb >>= λ fb.
    if not fb
    then result none
    else (acquire pool_array a.calloc_pool >>= λ pool.
        if not pool
        then (release fb_array >> result none)
        else (loop >>= after_loop a param a.register))

-- With `n` frame buffers.
unfoldable pub encoder_free_framebuffer : (n : ℕ) → Run Resource (Unit {0})
unfolding free_from
encoder_free_framebuffer n = do free_from 0 n; release fb_array; release pool_array
