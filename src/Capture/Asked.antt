-- ===== src/Capture/Asked.antt =====
-- What the driver of src/v4l_capture.c has after it was asked for something.
use camkit.Base.{ℕ, ◌+◌, ◌≤◌, ◌<◌, ◌≡◌, refl, ◌∙◌, true, false, ok, if◌then◌else◌, arith}
use camkit.Capture.{
  Errno, eintr, einval, eagain, eio, other, Reply, answered, refused, xioctl, Device, CapHandle,
}
use camkit.Capture.Queue.{one, among, Lawful, xioctl-Ends}

-- The buffer that the client has.
abbrev pub lent : CapHandle → ℕ → ℕ
lent handle j = if handle.v4lbuf_put then 0 else one handle.v4lbuf j

pub lent_none : (handle : CapHandle) (j : ℕ) → handle.v4lbuf_put ≡ true → lent handle j ≡ 0
lent_none handle j p = rw p refl

pub lent_out :
    (handle : CapHandle) (j : ℕ) → handle.v4lbuf_put ≡ false → lent handle j ≡ one handle.v4lbuf j
lent_out handle j p = rw p refl

pub one_self : (i : ℕ) → one i i ≡ 1
one_self i = ground arith

-- A count that is not 0 is that of a buffer of the handle, and it is 1.
pub among_lem : (n j : ℕ) → 1 ≤ among 0 n j → (j < n) × (among 0 n j ≡ 1)
among_lem n j h = ground arith

module _ {D : Type 0} (device : Device D) (tries : ℕ) (law : Lawful device tries) where
  -- What the driver has after it was asked to take `i`, and after it was asked for a buffer.
  abbrev pub AfterPut : (before : ℕ → ℕ) → ℕ → D → Reply (Unit {0}) → Type 0
  AfterPut before i d (answered done) = (j : ℕ) → law.queued d j ≡ before j + one i j
  AfterPut before i d (refused e) = (j : ℕ) → law.queued d j ≡ before j

  abbrev pub AfterTake : (before : ℕ → ℕ) → D → Reply ℕ → Type 0
  AfterTake before d (answered i) = (j : ℕ) → before j ≡ law.queued d j + one i j
  AfterTake before d (refused eio) = (j : ℕ) → law.queued d j ≤ before j
  AfterTake before d (refused _) = (j : ℕ) → law.queued d j ≡ before j

  -- After a refusal the driver has no more than before.
  pub AfterTake-le :
      (before : ℕ → ℕ) (d : D) (e : Errno)
      → AfterTake before d (refused e)
      → (j : ℕ) → law.queued d j ≤ before j
  AfterTake-le before d eintr after j = omega (arith, after j)
  AfterTake-le before d einval after j = omega (arith, after j)
  AfterTake-le before d eagain after j = omega (arith, after j)
  AfterTake-le before d eio after j = after j
  AfterTake-le before d other after j = omega (arith, after j)

  pub put-ends :
      (before : ℕ → ℕ) (i : ℕ) (d : D)
      → ((j : ℕ) → law.queued d j ≡ before j)
      → (r : Reply (Unit {0})) → (device.qbuf i d).1 ≡ r
      → AfterPut before i (device.qbuf i d).0 r
  put-ends before i d keeps (answered done) e =
      λ j. omega (arith, law.qbuf_answered i d e j, keeps j)
  put-ends before i d keeps (refused x) e = λ j. law.qbuf_refused i d x e j ∙ keeps j

  pub take-ends :
      (before : ℕ → ℕ) (d : D)
      → ((j : ℕ) → law.queued d j ≡ before j)
      → (r : Reply ℕ) → (device.dqbuf d).1 ≡ r
      → AfterTake before (device.dqbuf d).0 r
  take-ends before d keeps (answered i) e = λ j. omega (arith, law.dqbuf_answered d i e j, keeps j)
  take-ends before d keeps (refused eintr) e =
      λ j. law.dqbuf_refused d eintr (λ f. cc) e j ∙ keeps j
  take-ends before d keeps (refused einval) e =
      λ j. law.dqbuf_refused d einval (λ f. cc) e j ∙ keeps j
  take-ends before d keeps (refused eagain) e =
      λ j. law.dqbuf_refused d eagain (λ f. cc) e j ∙ keeps j
  take-ends before d keeps (refused eio) e = λ j. omega (arith, law.dqbuf_eio d e j, keeps j)
  take-ends before d keeps (refused other) e =
      λ j. law.dqbuf_refused d other (λ f. cc) e j ∙ keeps j

  pub xioctl-put :
      (i : ℕ) (d : D)
      → (d' : D) × (r : Reply (Unit {0})) × (xioctl (device.qbuf i) tries d ≡ ok (d', r))
        × AfterPut (law.queued d) i d' r
  xioctl-put i d =
      xioctl-Ends (device.qbuf i) law.patience (λ d'. (j : ℕ) → law.queued d' j ≡ law.queued d j)
        (AfterPut (law.queued d) i) (law.qbuf_interrupted i)
        (λ d' keeps e j. law.qbuf_refused i d' eintr e j ∙ keeps j)
        (λ d' keeps not_interrupted. put-ends (law.queued d) i d' keeps (device.qbuf i d').1 refl)
        tries d (law.patient d) (λ j. refl)

  pub xioctl-take :
      (d : D)
      → (d' : D) × (r : Reply ℕ) × (xioctl device.dqbuf tries d ≡ ok (d', r))
        × AfterTake (law.queued d) d' r
  xioctl-take d =
      xioctl-Ends device.dqbuf law.patience (λ d'. (j : ℕ) → law.queued d' j ≡ law.queued d j)
        (AfterTake (law.queued d)) law.dqbuf_interrupted
        (λ d' keeps e j. law.dqbuf_refused d' eintr (λ f. cc) e j ∙ keeps j)
        (λ d' keeps not_interrupted. take-ends (law.queued d) d' keeps (device.dqbuf d').1 refl)
        tries d (law.patient d) (λ j. refl)
