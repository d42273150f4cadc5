-- ===== src/Encode/Balance.antt =====
-- What src/vpu_encode.c holds after it is opened, and closed where this succeeded.
use camkit.Base.{
  ℕ, suc, ◌*◌, ◌^◌, ◌<◌, ltb, leb, ◌==◌, arith, ◌≡◌, refl, ap, sym, ◌∙◌, Bool, true, false, not,
  Option, none, some, List, [], ◌∷◌, ◌++◌, append_assoc, ok, if◌then◌else◌, length,
}
use camkit.Base.Resources.{
  Run, result, released, give_back, replay, replay-after, replay-released, open_close,
}
use mathlib.Core.Path.{subst}
use camkit.Ffmpeg.Encode.{EncParam}
use camkit.Encode.Memory.{
  pool_array, fb_array, Resource, Resource-discrete, handle_memory, vpu, stream_phys, stream_virt,
  encoder, VirtMem, minus_one, null, mapped, AllFrames, FrameAnswers, encoder_allocate_framebuffer,
  encoder_free_framebuffer,
}
use camkit.Encode.Open.{
  Answers, Opened, Opening, Prepared, prepare_encode, prepared_of, prepared, prepare, with_info,
  with_encoder, map_stream, encode_open, encode_close,
}
use camkit.Encode.Frees.{frames, below_frames}
use camkit.Encode.Allocate.{allocated, allocate_framebuffer-Settles, replay-free_framebuffer}

-- Before the encoder instance is opened.
abbrev pub stream_memory : List Resource
stream_memory = stream_virt ∷ stream_phys ∷ vpu ∷ []

abbrev low : List Resource
low = encoder ∷ stream_virt ∷ stream_phys ∷ vpu ∷ handle_memory ∷ []

-- What a failed preparation leaves: the frame buffers, too.
abbrev pub left_frames : Option AllFrames → List Resource
left_frames none = stream_memory
left_frames (some made) = allocated (some made) stream_memory

-- A client's use from a point of `encode_open` on.
abbrev Leaves : Opening → (held left : List Resource) → Type 0
Leaves m held left = replay Resource-discrete (open_close m encode_close).0 held ≡ ok left

-- Neither the encoder's instance nor the handle is memory of a frame buffer.
encoder_back :
    (k : ℕ) (held : List Resource)
    → give_back Resource-discrete encoder (frames 0 k (pool_array ∷ fb_array ∷ encoder ∷ held))
      ≡ some (frames 0 k (pool_array ∷ fb_array ∷ held))
unfolding give_back Resource-discrete
encoder_back k held = below_frames encoder 0 k _ _ (λ n e. cc) (λ n e. cc) refl

handle_back :
    (k : ℕ)
    → give_back Resource-discrete handle_memory
        (frames 0 k (pool_array ∷ fb_array ∷ stream_virt ∷ stream_phys ∷ vpu ∷ handle_memory ∷ []))
      ≡ some (frames 0 k (pool_array ∷ fb_array ∷ stream_memory))
unfolding give_back Resource-discrete
handle_back k = below_frames handle_memory 0 k _ _ (λ n e. cc) (λ n e. cc) refl

-- What a client that opens and closes leaves.
abbrev pub left_of : List Resource → Option Opened → List Resource
left_of left none = left
left_of left (some h) = []

prepare-Leaves :
    (param : EncParam) (made : AllFrames) (o : Option Prepared)
    → Leaves
        (prepared made (ok o))
        (allocated (some made) low)
        (left_of (left_frames (some made)) (prepared made (ok o)).1)
unfolding prepared encode_close replay Resource-discrete
prepare-Leaves param made none =
    let k = suc (length made.0) in
    replay-released Resource-discrete encoder (released handle_memory ∷ [])
      (allocated (some made) low)
      (frames 0 k (pool_array ∷ fb_array ∷ stream_virt ∷ stream_phys ∷ vpu ∷ handle_memory ∷ []))
      (encoder_back k (stream_virt ∷ stream_phys ∷ vpu ∷ handle_memory ∷ []))
    ∙ replay-released Resource-discrete handle_memory []
        (frames 0 k (pool_array ∷ fb_array ∷ stream_virt ∷ stream_phys ∷ vpu ∷ handle_memory ∷ []))
        (frames 0 k (pool_array ∷ fb_array ∷ stream_memory)) (handle_back k)
prepare-Leaves param made (some p) =
    replay-after Resource-discrete (encoder_free_framebuffer (suc (length made.0))).0 _
      (allocated (some made) low) low (replay-free_framebuffer (suc (length made.0)) low)

-- A source picture whose size in bytes can be computed in an `int`.
abbrev pub FitsInt : EncParam → Type 0
FitsInt param = param.src_picwidth * param.src_picheight * 3 < 2 ^ 31

prepare_encode-FitsInt :
    (param : EncParam) (made : AllFrames)
    → FitsInt param
    → (o : Option Prepared) × (prepare_encode param made ≡ ok o)
unfolding prepare_encode
prepare_encode-FitsInt param made small =
    go (param.src_picwidth == made.1.stride_y) (ltb param.src_picwidth param.enc_picwidth)
      (ltb param.src_picheight param.enc_picheight) refl refl refl
  where
    fits : leb (2 ^ 31) (param.src_picwidth * param.src_picheight * 3) ≡ false
    fits = ground arith

    go :
        (same wide high : Bool)
        → (param.src_picwidth == made.1.stride_y) ≡ same
        → ltb param.src_picwidth param.enc_picwidth ≡ wide
        → ltb param.src_picheight param.enc_picheight ≡ high
        → (o : Option Prepared) × (prepare_encode param made ≡ ok o)
    go false w h es ew eh = (none, rw (es, prepare_encode) refl)
    go true true h es ew eh = (none, rw (es, fits, ew, prepare_encode) refl)
    go true false true es ew eh = (none, rw (es, fits, ew, eh, prepare_encode) refl)
    go true false false es ew eh =
        (some (prepared_of param made.1), rw (es, fits, ew, eh, prepare_encode) refl)

prepare-Leaves_each :
    (param : EncParam)
    → FitsInt param
    → (o : Option AllFrames)
    → Leaves (prepare param o) (allocated o low) (left_of (left_frames o) (prepare param o).1)
unfolding prepare encode_close replay Resource-discrete
prepare-Leaves_each param small none = refl
prepare-Leaves_each param small (some made) =
    let r = prepare_encode-FitsInt param made small in
    subst
      (λ x.
        Leaves (prepared made x) (allocated (some made) low)
          (left_of (left_frames (some made)) (prepared made x).1))
      (sym r.1) (prepare-Leaves param made r.0)

-- By the least number of frame buffers.
abbrev pub left_info : FrameAnswers → EncParam → Option ℕ → List Resource
left_info a param none = stream_memory
left_info a param (some count) = left_frames (encoder_allocate_framebuffer a param count false).1

with_info-Leaves :
    (a : FrameAnswers)
    → ((i : ℕ) → ¬ (a.get_virt_mem i ≡ minus_one))
    → (param : EncParam) → FitsInt param
    → (info : Option ℕ)
    → Leaves
        (with_info a param info)
        low
        (left_of (left_info a param info) (with_info a param info).1)
unfolding with_info encode_close replay Resource-discrete
with_info-Leaves a maps param small none = refl
with_info-Leaves a maps param small (some count) =
    let alloc = encoder_allocate_framebuffer a param count false in
    let rest = prepare param alloc.1 in
    let closing : Run Resource (Unit {0}) = elim rest.1 [
      | none ↦ result tt
      | some h ↦ encode_close h
    ] in
    ap (λ es. replay Resource-discrete es low) (append_assoc alloc.0 rest.0 closing.0)
    ∙ replay-after Resource-discrete alloc.0 (rest.0 ++ closing.0) low (allocated alloc.1 low)
        (allocate_framebuffer-Settles a maps param count false low)
    ∙ prepare-Leaves_each param small alloc.1

-- By the mapping of the bitstream buffer.
abbrev pub left_mapped : Answers → EncParam → VirtMem → List Resource
left_mapped a param (mapped address) =
    if not a.enc_open then stream_memory else left_info a.frames param a.initial_info
left_mapped a param _ = vpu ∷ handle_memory ∷ []

-- What stays behind, where no handle is returned: from the handle's memory alone to the bitstream
-- buffer with its mapping, the VPU and, after a failure of `prepare_encode`, the frame buffers.
abbrev pub left_behind : Answers → EncParam → List Resource
left_behind a param =
    if not a.malloc_handle
    then []
    else if not a.vpu_init
    then handle_memory ∷ []
    else if not a.version
    then handle_memory ∷ []
    else if not a.get_phy_mem
    then vpu ∷ handle_memory ∷ []
    else left_mapped a param a.get_virt_mem

-- Let no call of `IOGetVirtMem` give -1, and let the size of a source picture be computed within an
-- `int`. After `encode_open` and, where it gives a handle, `encode_close`, nothing is held and nothing was
-- given back twice. Where it gives none after `malloc`, it leaves: the handle's memory, when the VPU
-- cannot be initialised or asked for its version; the VPU, too, when there is no bitstream buffer or its mapping is at 0;
-- the bitstream buffer and the VPU, when it fails later; and the frame buffers with their arrays,
-- when `prepare_encode` fails.
pub encode_open-encode_close_vpu :
    (a : Answers) (param : EncParam)
    → ¬ (a.get_virt_mem ≡ minus_one)
    → ((i : ℕ) → ¬ (a.frames.get_virt_mem i ≡ minus_one))
    → FitsInt param
    → replay Resource-discrete (open_close (encode_open a param) encode_close).0 []
      ≡ ok (left_of (left_behind a param) (encode_open a param).1)
unfolding map_stream encode_open with_encoder encode_close replay Resource-discrete
encode_open-encode_close_vpu a param stream_maps maps small =
    go a.malloc_handle a.vpu_init a.version a.get_phy_mem a.get_virt_mem a.enc_open refl refl refl
      refl refl refl
  where
    go :
        (malloc init version phys : Bool) (virt : VirtMem) (enc : Bool)
        → a.malloc_handle ≡ malloc
        → a.vpu_init ≡ init
        → a.version ≡ version
        → a.get_phy_mem ≡ phys
        → a.get_virt_mem ≡ virt
        → a.enc_open ≡ enc
        → replay Resource-discrete (open_close (encode_open a param) encode_close).0 []
          ≡ ok (left_of (left_behind a param) (encode_open a param).1)
    go false i v p t e em ei ev ep et ee = rw em refl
    go true false v p t e em ei ev ep et ee = rw (em, ei) refl
    go true true false p t e em ei ev ep et ee = rw (em, ei, ev) refl
    go true true true false t e em ei ev ep et ee = rw (em, ei, ev, ep) refl
    go true true true true minus_one e em ei ev ep et ee = absurd (stream_maps et)
    go true true true true null e em ei ev ep et ee = rw (em, ei, ev, ep, et) refl
    go true true true true (mapped v) false em ei ev ep et ee = rw (em, ei, ev, ep, et, ee) refl
    go true true true true (mapped v) true em ei ev ep et ee =
        rw (em, ei, ev, ep, et, ee) (with_info-Leaves a.frames maps param small a.initial_info)
