-- ===== src/Capture/Tests.antt =====
-- The theorems on src/v4l_capture.c with two buffers, and a driver that keeps a list of those it has.
use camkit.Base.{
  ℕ, ◌+◌, ◌≤◌, ◌<◌, ◌≡◌, refl, ap, inl, Bool, true, false, none, some, List, [], ◌∷◌, ok, ◌==◌, leb,
  if◌then◌else◌, arith,
}
use camkit.Base.Resources.{replay, open_close}
use camkit.Capture.{
  Errno, eintr, einval, eagain, eio, Reply, answered, refused, readable, Device, CapParam,
  CapHandle, Got, failed, capture_start, capture_get_data,
}
use camkit.Capture.Queue.{one, Lawful}
use camkit.Capture.Own.{Owned, Given, Kept, capture_get_data-Owned}
use camkit.Capture.Progress.{InTime, Pictures, capture_get_data-InTime}
use camkit.Capture.Session.{Idle, here, capture_get_data-capture_start}
use camkit.Capture.Restart.{capture_get_data-restarted}
use camkit.Capture.Open.{Answers, Resource-discrete, capture_open, capture_close}
use camkit.Capture.Balance.{left_open, capture_open-capture_close}

abbrev Fifo : Type 0
Fifo = List ℕ

abbrev count : Fifo → ℕ → ℕ
count [] j = 0
count (x ∷ xs) j = one x j + count xs j

-- A buffer that is unknown, or that the driver has already, is refused.
abbrev put : (taken : Bool) → ℕ → Fifo → Fifo × Reply (Unit {0})
put true i d = (d, refused einval)
put false i d = (i ∷ d, answered tt)

abbrev take_first : Fifo → Fifo × Reply ℕ
take_first [] = ([], refused eagain)
take_first (x ∷ xs) = (xs, answered x)

-- It has two buffers.
abbrev not_taken : ℕ → Fifo → Bool
not_taken i d = if leb 2 i then true else leb 1 (count d i)

abbrev camera : Device Fifo
camera = record {
  select = λ d. (d, readable);
  qbuf = λ i d. put (not_taken i d) i d;
  dqbuf = take_first;
  streamon = λ d. (d, answered tt);
  streamoff = λ d. ([], answered tt);
}

put-refused :
    (b : Bool) (i : ℕ) (d : Fifo) (e : Errno)
    → (put b i d).1 ≡ refused e
    → (j : ℕ) → count (put b i d).0 j ≡ count d j
put-refused true i d e h j = refl
put-refused false i d e h j = cc

put-answered :
    (b : Bool) (i : ℕ) (d : Fifo)
    → (put b i d).1 ≡ answered tt
    → (j : ℕ) → count (put b i d).0 j ≡ count d j + one i j
put-answered true i d h j = cc
put-answered false i d h j = omega arith

put-eintr : (b : Bool) (i : ℕ) (d : Fifo) → ¬ ((put b i d).1 ≡ refused eintr)
put-eintr true i d h = cc
put-eintr false i d h = cc

take_first-refused :
    (d : Fifo) (e : Errno)
    → (take_first d).1 ≡ refused e
    → (j : ℕ) → count (take_first d).0 j ≡ count d j
take_first-refused [] e h j = refl
take_first-refused (x ∷ xs) e h j = cc

take_first-eio :
    (d : Fifo) → (take_first d).1 ≡ refused eio → (j : ℕ) → count (take_first d).0 j ≤ count d j
take_first-eio [] h j = cc
take_first-eio (x ∷ xs) h j = cc

take_first-answered :
    (d : Fifo) (i : ℕ)
    → (take_first d).1 ≡ answered i
    → (j : ℕ) → count d j ≡ count (take_first d).0 j + one i j
take_first-answered [] i h j = cc
take_first-answered (x ∷ xs) i h j = let e : x ≡ i = cc in omega (arith, ap (λ y. one y j) e)

take_first-eintr : (d : Fifo) → ¬ ((take_first d).1 ≡ refused eintr)
take_first-eintr [] h = cc
take_first-eintr (x ∷ xs) h = cc

answered_ne : ¬ (answered tt ≡ refused eintr)
answered_ne h = cc

abbrev camera-Lawful : Lawful camera 1
camera-Lawful = record {
  queued = count;
  patience = λ d. 0;
  patient = λ d. omega arith;
  select_keeps = λ d j. refl;
  qbuf_refused = λ i d e h j. put-refused (not_taken i d) i d e h j;
  qbuf_answered = λ i d h j. put-answered (not_taken i d) i d h j;
  qbuf_interrupted = λ i d h. absurd (put-eintr (not_taken i d) i d h);
  dqbuf_refused = λ d e n. take_first-refused d e;
  dqbuf_eio = take_first-eio;
  dqbuf_answered = take_first-answered;
  dqbuf_interrupted = λ d h. absurd (take_first-eintr d h);
  streamon_keeps = λ d j. refl;
  streamon_interrupted = λ d h. absurd (answered_ne h);
}

camera_strict : (i : ℕ) (d : Fifo) → 1 ≤ count d i → (camera.qbuf i d).1 ≡ refused einval
camera_strict i d h = let t : not_taken i d ≡ true = ground arith in rw t refl

abbrev param : CapParam
param = record { dev_name = []; width = 4; height = 2; pixfmt = 0; rate = 15 }

abbrev handle : (v4lbuf_put : Bool) → CapHandle
handle p = record {
  fd = some 3;
  image_size = 16;
  buffers = record { start = 100; length = 16 } ∷ record { start = 200; length = 16 } ∷ [];
  nbuffers = 2;
  params = param;
  image_counter = 0;
  v4lbuf = 0;
  v4lbuf_put = p;
}

handle-Idle : Idle camera 1 camera-Lawful (handle true) []
handle-Idle = record {
  put = refl;
  none_queued = λ j. refl;
  mapped = omega arith;
  some_buffers = omega arith;
}

started : (b : Bool) → capture_start camera 1 (handle b) [] ≡ ok (1 ∷ 0 ∷ [], true)
unfolding capture_start
started true = refl
started false = refl

put-free : (i : ℕ) (d : Fifo) → i < 2 → count d i ≡ 0 → (camera.qbuf i d).1 ≡ answered tt
put-free i d known free = let t : not_taken i d ≡ false = ground arith in rw t refl

abbrev HasOne : Fifo → Type 0
HasOne d = (i : ℕ) × (1 ≤ count d i)

put-HasOne : (b : Bool) (i : ℕ) (d : Fifo) → HasOne d → HasOne (put b i d).0
put-HasOne true i d has = has
put-HasOne false i d has = (has.0, omega (arith, has.1))

take_first-some : (d : Fifo) → HasOne d → (j : ℕ) × ((take_first d).1 ≡ answered j)
take_first-some [] has = absurd (omega (arith, has.1))
take_first-some (x ∷ xs) has = (x, refl)

camera-InTime : InTime camera 1 camera-Lawful 2
camera-InTime = record {
  streaming = λ d. Unit {0};
  filled = HasOne;
  starts = λ d e. tt;
  ready = λ i d on there. (refl, (i, there));
  takes = λ i d known full free. inl (put-free i d known free);
  qbuf_filled = λ i d full. put-HasOne (not_taken i d) i d full;
  gives = λ d full. inl (take_first-some d full);
  dqbuf_streams = λ j d full e. tt;
  dqbuf_interrupted = λ d full e. absurd (take_first-eintr d e);
}

capture_get_data-InTime_example : Pictures camera 1 camera-Lawful (handle true) (1 ∷ 0 ∷ [])
capture_get_data-InTime_example =
    capture_get_data-InTime camera 1 camera-Lawful 2 camera-InTime (handle true) [] (1 ∷ 0 ∷ [])
      handle-Idle refl (omega arith) (started true) here

-- The first call after the start.
capture_get_data-capture_start_example :
    (h : CapHandle) × (d : Fifo) × (g : Got) × (capture_get_data camera 1 (handle true) (1 ∷ 0 ∷ [])
      ≡ ok (h, d, g))
    × Given camera 1 camera-Lawful h d g
capture_get_data-capture_start_example =
    capture_get_data-capture_start camera 1 camera-Lawful (handle true) [] (1 ∷ 0 ∷ []) handle-Idle
      (started true) here

handle-Owned : Owned camera 1 camera-Lawful (handle true) (1 ∷ 0 ∷ [])
handle-Owned = record {
  counted = λ j. ground arith;
  mapped = omega arith;
  some_buffers = omega arith;
}

capture_get_data-Owned_example :
    (h : CapHandle) × (d : Fifo) × (g : Got) × (capture_get_data camera 1 (handle true) (1 ∷ 0 ∷ [])
      ≡ ok (h, d, g))
    × Owned camera 1 camera-Lawful h d
    × Given camera 1 camera-Lawful h d g
    × Kept camera 1 camera-Lawful (handle true) (1 ∷ 0 ∷ []) h d g
capture_get_data-Owned_example =
    capture_get_data-Owned camera 1 camera-Lawful (handle true) (1 ∷ 0 ∷ []) handle-Owned

capture_get_data-restarted_example :
    (d : Fifo) × (capture_get_data camera 1 (handle false) (1 ∷ 0 ∷ [])
      ≡ ok (handle false, d, failed))
capture_get_data-restarted_example =
    capture_get_data-restarted camera 1 camera-Lawful camera_strict (handle false) [] (1 ∷ 0 ∷ [])
      refl (omega arith) (started false) here

-- The second of four buffers cannot be mapped.
abbrev answers : Answers
answers = record {
  malloc_handle = true;
  stat = true;
  is_chr = true;
  open_device = some 3;
  querycap = some (record { video_capture = true; streaming = true });
  s_fmt = some (record { width = 4; height = 2; sizeimage = 16 });
  s_parm = true;
  reqbufs = some 4;
  calloc_buffers = true;
  querybuf = λ i. some 16;
  mmap = λ i. if i == 1 then none else some 100;
}

capture_open-capture_close_example :
    replay Resource-discrete (open_close (capture_open answers param) capture_close).0 []
    ≡ ok (left_open answers (capture_open answers param).1)
capture_open-capture_close_example = capture_open-capture_close answers param
