-- ===== src/Capture/Mappings.antt =====
-- The mappings that src/v4l_capture.c makes and gives back in loops.
use camkit.Base.{
  ℕ, zero, suc, ◌+◌, ◌≡◌, refl, sym, ap, ◌∙◌, Bool, Option, none, some, List, ◌∷◌, append-nil, ok,
  length, arith,
}
use camkit.Base.Resources.{Run, replay, replay-released, give_back, give_back_self, give_back_ne}
use camkit.Capture.{Buffer}
use camkit.Capture.Open.{
  Resource, Resource-discrete, mapping, Answers, map_from, unmap_down, unmap_up,
}

-- The mappings of the `k` buffers from `i` on, the last one first.
abbrev pub stack : (i k : ℕ) → List Resource → List Resource
stack i zero held = held
stack i (suc k) held = mapping (i + k) ∷ stack i k held

pub stack_cons :
    (i k : ℕ) (held : List Resource) → stack i (suc k) held ≡ stack (i + 1) k (mapping i ∷ held)
stack_cons i zero held = let e : i + 0 ≡ i = omega arith in ap (λ m. mapping m ∷ held) e
stack_cons i (suc k) held =
    let e : i + suc k ≡ (i + 1) + k = omega arith in
    ap (λ m. mapping m ∷ stack i (suc k) held) e
    ∙ ap (λ t. mapping ((i + 1) + k) ∷ t) (stack_cons i k held)

mapping-inj : (m n : ℕ) → mapping m ≡ mapping n → m ≡ n
mapping-inj m n e = cc

-- A mapping can be given back from below later ones.
pub give_back-stack :
    (i k : ℕ) (held : List Resource)
    → give_back Resource-discrete (mapping i) (stack (i + 1) k (mapping i ∷ held))
      ≡ some (stack (i + 1) k held)
give_back-stack i zero held = give_back_self Resource-discrete (mapping i) held
give_back-stack i (suc k) held =
    give_back_ne Resource-discrete (mapping i) (mapping ((i + 1) + k))
      (stack (i + 1) k (mapping i ∷ held)) (stack (i + 1) k held)
      (λ e. let n : i ≡ (i + 1) + k = mapping-inj i ((i + 1) + k) e in omega arith)
      (give_back-stack i k held)

pub replay-unmap_down :
    (k : ℕ) (held : List Resource)
    → replay Resource-discrete (unmap_down k).0 (stack 0 k held) ≡ ok held
unfolding unmap_down replay
replay-unmap_down zero held = refl
replay-unmap_down (suc k) held =
    let e : 0 + k ≡ k = omega arith in
    ap (λ m. replay Resource-discrete (unmap_down (suc k)).0 (mapping m ∷ stack 0 k held)) e
    ∙ replay-released Resource-discrete (mapping k) (unmap_down k).0 (mapping k ∷ stack 0 k held)
        (stack 0 k held) (give_back_self Resource-discrete (mapping k) (stack 0 k held))
    ∙ replay-unmap_down k held

pub replay-unmap_up :
    (i k : ℕ) (held : List Resource)
    → replay Resource-discrete (unmap_up i k).0 (stack i k held) ≡ ok held
unfolding unmap_up replay
replay-unmap_up i zero held = refl
replay-unmap_up i (suc k) held =
    ap (replay Resource-discrete (unmap_up i (suc k)).0) (stack_cons i k held)
    ∙ replay-released Resource-discrete (mapping i) (unmap_up (i + 1) k).0
        (stack (i + 1) k (mapping i ∷ held)) (stack (i + 1) k held) (give_back-stack i k held)
    ∙ replay-unmap_up (i + 1) k held

pub replay-map_from :
    (a : Answers) (i n : ℕ) (held : List Resource)
    → replay Resource-discrete (map_from a i n).0 held
      ≡ ok (stack i (length (map_from a i n).1.0) held)
unfolding map_from replay
replay-map_from a i zero held = refl
replay-map_from a i (suc n) held =
    go (a.querybuf i) (a.mmap i) refl refl (replay-map_from a (i + 1) n (mapping i ∷ held))
  where
    m : Run Resource (List Buffer × Bool)
    m = map_from a (i + 1) n

    go :
        (q p : Option ℕ)
        → a.querybuf i ≡ q
        → a.mmap i ≡ p
        → replay Resource-discrete m.0 (mapping i ∷ held)
          ≡ ok (stack (i + 1) (length m.1.0) (mapping i ∷ held))
        → replay Resource-discrete (map_from a i (suc n)).0 held
          ≡ ok (stack i (length (map_from a i (suc n)).1.0) held)
    go none p e f ih = rw (e, map_from) refl
    go (some len) none e f ih = rw (e, f, map_from) refl
    go (some len) (some address) e f ih =
        rw (e, f, map_from, append-nil m.0) (ih ∙ ap ok (sym (stack_cons i (length m.1.0) held)))
