-- ===== src/Capture.antt =====
-- src/v4l_capture.c: the handle, and what it asks of the device while it captures.
pub mod Open
pub mod Mappings
pub mod Balance
pub mod Controls
pub mod Queue
pub mod Asked
pub mod Own
pub mod Session
pub mod Restart
pub mod Progress
mod Tests
use camkit.Base.{
  ℕ, zero, suc, ◌+◌, Bool, true, false, not, Option, none, some, List, [], ◌∷◌, Outcome, ok, fault,
  aborted, out_of_fuel, require, expect, ◌>>=◌, ◌>>◌, ltb, if◌then◌else◌, get_elem?, ◌%◌, ◌^◌,
}

-- `errno`, as far as the code looks at it.
pub data Errno : Type 0 where
  eintr einval eagain eio other : Errno

-- What `ioctl` gives: a result, or -1 with `errno`.
pub data Reply (A : Type 0) : Type 0 where
  answered : A → Reply A
  refused : Errno → Reply A

abbrev pub interrupted : Errno → Bool
interrupted eintr = true
interrupted _ = false

-- The loop of `xioctl` over a call on the device, whose state is a `D`.
unfoldable pub xioctl : {D A : Type 0} → (D → D × Reply A) → (fuel : ℕ) → D → Outcome (D × Reply A)
xioctl call zero d = out_of_fuel
xioctl call (suc fuel) d =
    let retry = xioctl call fuel (call d).0 in
    elim (call d).1 [
      | answered a ↦ ok ((call d).0, answered a)
      | refused e ↦ if interrupted e then retry else ok ((call d).0, refused e)
    ]

pub data Ready : Type 0 where
  select_failed timeout readable : Ready

-- The kernel's side: one function to a request. A number names a buffer.
pub record Device (D : Type 0) : Type 0 where
  pub select : D → D × Ready
  pub qbuf : ℕ → D → D × Reply (Unit {0})
  pub dqbuf : D → D × Reply ℕ
  pub streamon : D → D × Reply (Unit {0})
  pub streamoff : D → D × Reply (Unit {0})

pub record CapParam : Type 0 where
  pub dev_name : List ℕ
  pub width : ℕ
  pub height : ℕ
  pub pixfmt : ℕ
  pub rate : ℕ

-- `struct buffer_t`, with the address as a number.
pub record Buffer : Type 0 where
  pub start : ℕ
  pub length : ℕ

-- `none` is the descriptor -1; `v4lbuf` is the `index` of the field of that name, the only part that is read.
-- `image_counter`, an `unsigned long`, has 32 bits on the boards.
pub record CapHandle : Type 0 where
  pub fd : Option ℕ
  pub image_size : ℕ
  pub buffers : List Buffer
  pub nbuffers : ℕ
  pub params : CapParam
  pub image_counter : ℕ
  pub v4lbuf : ℕ
  pub v4lbuf_put : Bool

-- What `capture_get_data` returns: 0 with the buffer and its length, -1, or `EAGAIN`.
pub data Got : Type 0 where
  got : (start len : ℕ) → Got
  failed again : Got

-- The `switch` on `errno` after the request for a buffer.
abbrev pub refusal : Errno → Got
refusal eagain = again
refusal _ = failed

module _ {D : Type 0} (device : Device D) (tries : ℕ) where
  -- The loop of `capture_start` over the `n` buffers from `i` on.
  unfoldable pub queue_from : (i n : ℕ) → D → Outcome (D × Bool)
  unfolding xioctl
  queue_from i zero d = ok (d, true)
  queue_from i (suc n) d = xioctl (device.qbuf i) tries d >>= λ q. elim q.1 [
    | answered done ↦ queue_from (i + 1) n q.0
    | refused e ↦ ok (q.0, false)
  ]

  -- The result tells 0 from -1.
  unfoldable pub capture_start : CapHandle → D → Outcome (D × Bool)
  unfolding queue_from xioctl
  capture_start handle d = queue_from 0 handle.nbuffers d >>= λ q. elim q.1 [
    | false ↦ ok (q.0, false)
    | true ↦ xioctl device.streamon tries q.0 >>= λ s. elim s.1 [
      | answered done ↦ ok (s.0, true)
      | refused e ↦ ok (s.0, false)
    ]
  ]

  -- The answer is not looked at.
  unfoldable pub capture_stop : CapHandle → D → Outcome D
  unfolding xioctl
  capture_stop handle d = xioctl device.streamoff tries d >>= λ s. ok s.0

  -- The buffer that the client has is put back into the queue before the next one is taken.
  unfoldable pub put_back : CapHandle → D → Outcome (CapHandle × D × Bool)
  unfolding xioctl
  put_back handle d = elim handle.v4lbuf_put [
    | true ↦ ok (handle, d, true)
    | false ↦ xioctl (device.qbuf handle.v4lbuf) tries d >>= λ q. elim q.1 [
      | answered done ↦ ok (record handle { v4lbuf_put = true }, q.0, true)
      | refused e ↦ ok (handle, q.0, false)
    ]
  ]

  unfoldable pub fetch : CapHandle → D → Outcome (CapHandle × D × Got)
  unfolding xioctl
  fetch handle d = xioctl device.dqbuf tries d >>= λ q. elim q.1 [
    | refused e ↦ ok (record handle { v4lbuf = 0 }, q.0, refusal e)
    | answered i ↦
        require (ltb i handle.nbuffers)
        >> (expect (get_elem? handle.buffers i) >>= λ buffer. ok (
          record handle {
            v4lbuf = i;
            v4lbuf_put = false;
            image_counter = (handle.image_counter + 1) % 2 ^ 32;
          },
          q.0,
          got buffer.start handle.image_size,
        ))
  ]

  unfoldable pub capture_get_data : CapHandle → D → Outcome (CapHandle × D × Got)
  unfolding put_back fetch
  capture_get_data handle d = elim (device.select d).1 [
    | readable ↦ put_back handle (device.select d).0 >>= λ p. elim p.2 [
      | true ↦ fetch p.0 p.1
      | false ↦ ok (p.0, p.1, failed)
    ]
    | _ ↦ ok (handle, (device.select d).0, failed)
  ]
