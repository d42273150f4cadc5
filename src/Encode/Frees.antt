-- ===== src/Encode/Frees.antt =====
-- What the frame buffers of src/vpu_encode.c hold and give back.
use camkit.Base.{
  ℕ, zero, suc, ◌+◌, ◌≡◌, ◌≢◌, refl, ap, ◌∙◌, Bool, true, false, Option, none, some, List, [], ◌∷◌,
  ok, ltb, arith,
}
use camkit.Base.Resources.{
  released, replay, replay-released, give_back, give_back_self, give_back_ne,
}
use camkit.Encode.Pool.{num_frame_bufs}
use camkit.Encode.Memory.{
  Resource, Resource-discrete, frame_phys, frame_virt, VirtMem, minus_one, null, mapped, map_frame,
  MyFrameBuf, FrameAnswers, framebuf_alloc, free_from,
}

-- The memory of the `k` buffers from `i` on, the last one first.
abbrev pub frames : (i k : ℕ) → List Resource → List Resource
frames i zero held = held
frames i (suc k) held = frame_virt (i + k) ∷ frame_phys (i + k) ∷ frames i k held

abbrev pub frame : ℕ → List Resource → List Resource
frame i held = frame_virt i ∷ frame_phys i ∷ held

pub frames_cons :
    (i k : ℕ) (held : List Resource) → frames i (suc k) held ≡ frames (i + 1) k (frame i held)
frames_cons i zero held = let e : i + 0 ≡ i = omega arith in ap (λ m. frame m held) e
frames_cons i (suc k) held =
    let e : i + suc k ≡ (i + 1) + k = omega arith in
    ap (λ m. frame m (frames i (suc k) held)) e ∙ ap (frame ((i + 1) + k)) (frames_cons i k held)

frame_virt_ne : (m n : ℕ) → m ≢ n → ¬ (frame_virt m ≡ frame_virt n)
frame_virt_ne m n h e = h (inj e)
  where
    inj : frame_virt m ≡ frame_virt n → m ≡ n
    inj p = cc

frame_phys_ne : (m n : ℕ) → m ≢ n → ¬ (frame_phys m ≡ frame_phys n)
frame_phys_ne m n h e = h (inj e)
  where
    inj : frame_phys m ≡ frame_phys n → m ≡ n
    inj p = cc

phys_virt_ne : (m n : ℕ) → ¬ (frame_phys m ≡ frame_virt n)
phys_virt_ne m n e = cc

virt_phys_ne : (m n : ℕ) → ¬ (frame_virt m ≡ frame_phys n)
virt_phys_ne m n e = cc

-- What can be given back can be given back from below later buffers.
below_frame :
    (r : Resource) (m : ℕ) (xs ys : List Resource)
    → ¬ (r ≡ frame_virt m)
    → ¬ (r ≡ frame_phys m)
    → give_back Resource-discrete r xs ≡ some ys
    → give_back Resource-discrete r (frame m xs) ≡ some (frame m ys)
below_frame r m xs ys v p e =
    give_back_ne Resource-discrete r (frame_virt m) (frame_phys m ∷ xs) (frame_phys m ∷ ys) v
      (give_back_ne Resource-discrete r (frame_phys m) xs ys p e)

virt_below :
    (i k : ℕ) (held : List Resource)
    → give_back Resource-discrete (frame_virt i) (frames (i + 1) k (frame i held))
      ≡ some (frames (i + 1) k (frame_phys i ∷ held))
virt_below i zero held = give_back_self Resource-discrete (frame_virt i) (frame_phys i ∷ held)
virt_below i (suc k) held =
    below_frame (frame_virt i) ((i + 1) + k) _ _ (frame_virt_ne i ((i + 1) + k) (λ e. omega arith))
      (virt_phys_ne i ((i + 1) + k)) (virt_below i k held)

phys_below :
    (i k : ℕ) (held : List Resource)
    → give_back Resource-discrete (frame_phys i) (frames (i + 1) k (frame_phys i ∷ held))
      ≡ some (frames (i + 1) k held)
phys_below i zero held = give_back_self Resource-discrete (frame_phys i) held
phys_below i (suc k) held =
    below_frame (frame_phys i) ((i + 1) + k) _ _ (phys_virt_ne i ((i + 1) + k))
      (frame_phys_ne i ((i + 1) + k) (λ e. omega arith)) (phys_below i k held)

pub replay-free_from :
    (i k : ℕ) (held : List Resource)
    → replay Resource-discrete (free_from i k).0 (frames i k held) ≡ ok held
unfolding free_from replay
replay-free_from i zero held = refl
replay-free_from i (suc k) held =
    ap (replay Resource-discrete (free_from i (suc k)).0) (frames_cons i k held)
    ∙ replay-released Resource-discrete (frame_virt i)
        (released (frame_phys i) ∷ (free_from (i + 1) k).0) (frames (i + 1) k (frame i held))
        (frames (i + 1) k (frame_phys i ∷ held)) (virt_below i k held)
    ∙ replay-released Resource-discrete (frame_phys i) (free_from (i + 1) k).0
        (frames (i + 1) k (frame_phys i ∷ held)) (frames (i + 1) k held) (phys_below i k held)
    ∙ replay-free_from (i + 1) k held

-- What a buffer's allocation leaves.
abbrev pub after_frame : ℕ → Option MyFrameBuf → List Resource → List Resource
after_frame i none held = held
after_frame i (some f) held = frame i held

pub replay-framebuf_alloc :
    (a : FrameAnswers)
    → ((i : ℕ) → ¬ (a.get_virt_mem i ≡ minus_one))
    → (i stride height : ℕ) (held : List Resource)
    → replay Resource-discrete (framebuf_alloc a i stride height).0 held
      ≡ ok (after_frame i (framebuf_alloc a i stride height).1 held)
unfolding framebuf_alloc map_frame replay
replay-framebuf_alloc a maps i stride height held =
    go (ltb i num_frame_bufs) (a.get_phy_mem i) (a.get_virt_mem i) refl refl refl
  where
    go :
        (room : Bool) (p : Option ℕ) (v : VirtMem)
        → ltb i num_frame_bufs ≡ room
        → a.get_phy_mem i ≡ p
        → a.get_virt_mem i ≡ v
        → replay Resource-discrete (framebuf_alloc a i stride height).0 held
          ≡ ok (after_frame i (framebuf_alloc a i stride height).1 held)
    go false p v r e f = rw r refl
    go true none v r e f = rw (r, e) refl
    go true (some x) minus_one r e f = absurd (maps i f)
    go true (some x) null r e f =
        rw (r, e, f, map_frame)
          (replay-released Resource-discrete (frame_phys i) [] (frame_phys i ∷ held) held
            (give_back_self Resource-discrete (frame_phys i) held))
    go true (some x) (mapped y) r e f = rw (r, e, f, map_frame) refl

pub below_frames :
    (r : Resource) (i k : ℕ) (xs ys : List Resource)
    → ((n : ℕ) → ¬ (r ≡ frame_virt n))
    → ((n : ℕ) → ¬ (r ≡ frame_phys n))
    → give_back Resource-discrete r xs ≡ some ys
    → give_back Resource-discrete r (frames i k xs) ≡ some (frames i k ys)
below_frames r i zero xs ys v p e = e
below_frames r i (suc k) xs ys v p e =
    below_frame r (i + k) (frames i k xs) (frames i k ys) (v (i + k)) (p (i + k))
      (below_frames r i k xs ys v p e)
