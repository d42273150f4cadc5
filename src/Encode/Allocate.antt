-- ===== src/Encode/Allocate.antt =====
-- The allocation of all frame buffers of src/vpu_encode.c: what it leaves on each path.
use camkit.Base.{
  ℕ, zero, suc, ◌+◌, ◌≡◌, refl, sym, ap, ◌∙◌, Bool, true, false, not, Option, none, some, List, [],
  ◌∷◌, ◌++◌, append-nil, ok, if◌then◌else◌, arith, length,
}
use camkit.Base.Resources.{
  Run, acquire, release, result, ◌>>=◌, ◌>>◌, give_back_self, Event, released, replay, replay-after,
  replay-released,
}
use camkit.Ffmpeg.Encode.{EncParam}
use camkit.Encode.Memory.{
  Resource, Resource-discrete, fb_array, pool_array, MyFrameBuf, minus_one, FrameAnswers, AllFrames,
  with_source, after_loop, framebuf_alloc, free_from, alloc_from, undo, align16, extra_count,
  encoder_allocate_framebuffer, encoder_free_framebuffer,
}
use camkit.Encode.Frees.{
  frames, frame, frames_cons, after_frame, replay-free_from, replay-framebuf_alloc,
}

replay-alloc_from :
    (a : FrameAnswers)
    → ((i : ℕ) → ¬ (a.get_virt_mem i ≡ minus_one))
    → (stride height i n : ℕ) (held : List Resource)
    → replay Resource-discrete (alloc_from a stride height i n).0 held
      ≡ ok (frames i (length (alloc_from a stride height i n).1.0) held)
unfolding alloc_from replay
replay-alloc_from a maps stride height i zero held = refl
replay-alloc_from a maps stride height i (suc n) held =
    go (framebuf_alloc a i stride height).1 (replay-framebuf_alloc a maps i stride height held)
      (replay-alloc_from a maps stride height (i + 1) n (frame i held))
  where
    m : Run Resource (List MyFrameBuf × Bool)
    m = alloc_from a stride height (i + 1) n

    one : List (Event Resource)
    one = (framebuf_alloc a i stride height).0

    goes_on : Option MyFrameBuf → Run Resource (List MyFrameBuf × Bool)
    goes_on none = result ([], false)
    goes_on (some f) = m >>= λ others. result (f ∷ others.0, others.1)

    go :
        (o : Option MyFrameBuf)
        → replay Resource-discrete one held ≡ ok (after_frame i o held)
        → replay Resource-discrete m.0 (frame i held)
          ≡ ok (frames (i + 1) (length m.1.0) (frame i held))
        → replay Resource-discrete (one ++ (goes_on o).0) held
          ≡ ok (frames i (length (goes_on o).1.0) held)
    go none made rest = replay-after Resource-discrete one [] held held made
    go (some f) made rest = rw (append-nil m.0) (
        replay-after Resource-discrete one m.0 held (frame i held) made
        ∙ rest
        ∙ ap ok (sym (frames_cons i (length m.1.0) held)))

abbrev arrays : List Resource → List Resource
arrays held = pool_array ∷ fb_array ∷ held

-- The end of `undo`, and of `encoder_free_framebuffer`.
replay-arrays :
    (k : ℕ) (held : List Resource)
    → replay Resource-discrete
        ((free_from 0 k).0 ++ (released fb_array ∷ released pool_array ∷ []))
        (frames 0 k (arrays held))
      ≡ ok held
unfolding replay Resource-discrete
replay-arrays k held =
    replay-after Resource-discrete (free_from 0 k).0 (released fb_array ∷ released pool_array ∷ [])
      (frames 0 k (arrays held)) (arrays held) (replay-free_from 0 k (arrays held))

replay-undo :
    (k : ℕ) (held : List Resource)
    → replay Resource-discrete (undo k).0 (frames 0 k (arrays held)) ≡ ok held
unfolding undo
replay-undo k held = replay-arrays k held

pub replay-free_framebuffer :
    (k : ℕ) (held : List Resource)
    → replay Resource-discrete (encoder_free_framebuffer k).0 (frames 0 k (arrays held)) ≡ ok held
unfolding encoder_free_framebuffer
replay-free_framebuffer k held = replay-arrays k held

-- What is held after the allocation of all buffers.
abbrev pub allocated : Option AllFrames → List Resource → List Resource
allocated none held = held
allocated (some made) held = frames 0 (suc (length made.0)) (arrays held)

-- A run that ends the allocation, from `before` on.
abbrev Settles : Run Resource (Option AllFrames) → (before held : List Resource) → Type 0
Settles m before held = replay Resource-discrete m.0 before ≡ ok (allocated m.1 held)

with_source-Settles :
    (made : List MyFrameBuf) (o : Option MyFrameBuf) (held : List Resource)
    → Settles
        (with_source made o)
        (after_frame (length made) o (frames 0 (length made) (arrays held)))
        held
unfolding with_source replay
with_source-Settles made none held = replay-undo (length made) held
with_source-Settles made (some f) held =
    let e : length made ≡ 0 + length made = omega arith in
    ap (λ n. ok (frame n (frames 0 (length made) (arrays held)))) e

after_loop-Settles :
    (a : FrameAnswers)
    → ((i : ℕ) → ¬ (a.get_virt_mem i ≡ minus_one))
    → (param : EncParam) (registered all : Bool) (made : List MyFrameBuf) (held : List Resource)
    → Settles
        (after_loop a param registered (made, all))
        (frames 0 (length made) (arrays held))
        held
unfolding after_loop
after_loop-Settles a maps param registered false made held = replay-undo (length made) held
after_loop-Settles a maps param false true made held = replay-undo (length made) held
after_loop-Settles a maps param true true made held =
    let source =
      framebuf_alloc a (length made) (align16 param.src_picwidth) (align16 param.src_picheight) in
    let before = frames 0 (length made) (arrays held) in
    replay-after Resource-discrete source.0 (with_source made source.1).0 before
      (after_frame (length made) source.1 before)
      (replay-framebuf_alloc a maps (length made) (align16 param.src_picwidth)
        (align16 param.src_picheight) before)
    ∙ with_source-Settles made source.1 held

-- An allocation that fails leaves what was held before; one that succeeds holds the arrays and all
-- buffers.
pub allocate_framebuffer-Settles :
    (a : FrameAnswers)
    → ((i : ℕ) → ¬ (a.get_virt_mem i ≡ minus_one))
    → (param : EncParam) (min_fb_count : ℕ) (mvc : Bool) (held : List Resource)
    → Settles (encoder_allocate_framebuffer a param min_fb_count mvc) held held
unfolding encoder_allocate_framebuffer replay
allocate_framebuffer-Settles a maps param min_fb_count mvc held = go a.calloc_fb a.calloc_pool
  where
    loop : Run Resource (List MyFrameBuf × Bool)
    loop =
        alloc_from a (align16 param.enc_picwidth) (align16 param.enc_picheight) 0
          (min_fb_count + extra_count mvc)

    go :
        (fb pool : Bool)
        → Settles
            (acquire fb_array fb >>= λ got_fb.
              if not got_fb
              then result none
              else (acquire pool_array pool >>= λ got_pool.
                  if not got_pool
                  then (release fb_array >> result none)
                  else (loop >>= after_loop a param a.register)))
            held
            held
    go false pool = refl
    go true false =
        replay-released Resource-discrete fb_array [] (fb_array ∷ held) held
          (give_back_self Resource-discrete fb_array held)
    go true true =
        replay-after Resource-discrete loop.0 (after_loop a param a.register loop.1).0 (arrays held)
          (frames 0 (length loop.1.0) (arrays held))
          (replay-alloc_from a maps (align16 param.enc_picwidth) (align16 param.enc_picheight) 0
            (min_fb_count + extra_count mvc) (arrays held))
        ∙ after_loop-Settles a maps param a.register loop.1.1 loop.1.0 held
