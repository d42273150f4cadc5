-- ===== src/Capture/Queue.antt =====
-- Where the buffers of src/v4l_capture.c are: with the driver, or with the client.
use camkit.Base.{
  ℕ, zero, suc, ◌+◌, ◌≤◌, ◌<◌, ◌≡◌, refl, sym, ◌∙◌, ◌⊎◌, inl, inr, ok, ltb, leb, ◌==◌,
  if◌then◌else◌, arith,
}
use camkit.Capture.{
  Errno, eintr, einval, eagain, eio, other, Reply, answered, refused, xioctl, Device,
}

-- Whether `j` is the buffer `i`, and whether it is one of the `n` buffers from `i` on, as 1 and 0.
abbrev pub one : (i j : ℕ) → ℕ
one i j = if i == j then 1 else 0

abbrev pub among : (i n j : ℕ) → ℕ
among i n j = if leb i j then (if ltb j (i + n) then 1 else 0) else 0

-- What V4L2 documents of the driver, and that at most `patience d` requests in a row, fewer than
-- `tries`, are interrupted by a signal. `queued d j` counts how often the driver has the buffer `j`.
-- After `EIO` it may have dequeued a buffer without giving its number.
pub record Lawful {D : Type 0} (device : Device D) (tries : ℕ) : Type 0 where
  pub queued : D → ℕ → ℕ
  pub patience : D → ℕ
  pub patient : (d : D) → patience d < tries
  pub select_keeps : (d : D) (j : ℕ) → queued (device.select d).0 j ≡ queued d j
  pub qbuf_refused :
      (i : ℕ) (d : D) (e : Errno)
      → (device.qbuf i d).1 ≡ refused e
      → (j : ℕ) → queued (device.qbuf i d).0 j ≡ queued d j
  pub qbuf_answered :
      (i : ℕ) (d : D)
      → (device.qbuf i d).1 ≡ answered tt
      → (j : ℕ) → queued (device.qbuf i d).0 j ≡ queued d j + one i j
  pub qbuf_interrupted :
      (i : ℕ) (d : D)
      → (device.qbuf i d).1 ≡ refused eintr
      → patience (device.qbuf i d).0 < patience d
  pub dqbuf_refused :
      (d : D) (e : Errno)
      → ¬ (e ≡ eio)
      → (device.dqbuf d).1 ≡ refused e
      → (j : ℕ) → queued (device.dqbuf d).0 j ≡ queued d j
  pub dqbuf_eio :
      (d : D)
      → (device.dqbuf d).1 ≡ refused eio
      → (j : ℕ) → queued (device.dqbuf d).0 j ≤ queued d j
  pub dqbuf_answered :
      (d : D) (i : ℕ)
      → (device.dqbuf d).1 ≡ answered i
      → (j : ℕ) → queued d j ≡ queued (device.dqbuf d).0 j + one i j
  pub dqbuf_interrupted :
      (d : D) → (device.dqbuf d).1 ≡ refused eintr → patience (device.dqbuf d).0 < patience d
  pub streamon_keeps : (d : D) (j : ℕ) → queued (device.streamon d).0 j ≡ queued d j
  pub streamon_interrupted :
      (d : D) → (device.streamon d).1 ≡ refused eintr → patience (device.streamon d).0 < patience d

Reply-cases :
    {A : Type 0} (r : Reply A) → ((a : A) × (r ≡ answered a)) ⊎ ((e : Errno) × (r ≡ refused e))
Reply-cases (answered a) = inl (a, refl)
Reply-cases (refused e) = inr (e, refl)

-- The rule of the loop: what an interruption keeps holds when it ends.
module _ {D A : Type 0} (call : D → D × Reply A) (patience : D → ℕ) (Keeps : D → Type 0)
    (Ends : D → Reply A → Type 0)
    (shrinks : (d : D) → (call d).1 ≡ refused eintr → patience (call d).0 < patience d)
    (retries : (d : D) → Keeps d → (call d).1 ≡ refused eintr → Keeps (call d).0)
    (ends : (d : D) → Keeps d → ¬ ((call d).1 ≡ refused eintr) → Ends (call d).0 (call d).1) where
  abbrev Ended : (fuel : ℕ) → D → Type 0
  Ended fuel d = (d' : D) × (r : Reply A) × (xioctl call fuel d ≡ ok (d', r)) × Ends d' r

  once :
      (fuel : ℕ) (d : D)
      → Keeps d
      → ((call d).1 ≡ refused eintr → Ended fuel (call d).0)
      → (r : Reply A) → (call d).1 ≡ r
      → Ended (suc fuel) d
  unfolding xioctl
  once fuel d keeps more (answered a) e = (
    (call d).0,
    answered a,
    rw (e, xioctl) refl,
    rw (sym e) (ends d keeps (λ f. let g = sym e ∙ f in cc)),
  )
  once fuel d keeps more (refused eintr) e =
      let rest = more e in (rest.0, rest.1, rw (e, xioctl) rest.2, rest.3)
  once fuel d keeps more (refused einval) e = (
    (call d).0,
    refused einval,
    rw (e, xioctl) refl,
    rw (sym e) (ends d keeps (λ f. let g = sym e ∙ f in cc)),
  )
  once fuel d keeps more (refused eagain) e = (
    (call d).0,
    refused eagain,
    rw (e, xioctl) refl,
    rw (sym e) (ends d keeps (λ f. let g = sym e ∙ f in cc)),
  )
  once fuel d keeps more (refused eio) e = (
    (call d).0,
    refused eio,
    rw (e, xioctl) refl,
    rw (sym e) (ends d keeps (λ f. let g = sym e ∙ f in cc)),
  )
  once fuel d keeps more (refused other) e = (
    (call d).0,
    refused other,
    rw (e, xioctl) refl,
    rw (sym e) (ends d keeps (λ f. let g = sym e ∙ f in cc)),
  )

  pub xioctl-Ends : (fuel : ℕ) (d : D) → patience d < fuel → Keeps d → Ended fuel d
  xioctl-Ends zero d small keeps = absurd (omega arith)
  xioctl-Ends (suc fuel) d small keeps =
      once fuel d keeps
        (λ e. xioctl-Ends fuel (call d).0 (omega (arith, shrinks d e)) (retries d keeps e))
        (call d).1 refl
