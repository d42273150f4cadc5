-- ===== src/Capture/Session.antt =====
-- A session of src/v4l_capture.c: `capture_start`, then any number of calls of `capture_get_data`.
use camkit.Base.{
  ℕ, zero, suc, ◌+◌, ◌≤◌, ◌<◌, ◌≡◌, refl, sym, ap, ◌∙◌, Bool, true, false, ok, arith, length,
}
use mathlib.Core.Path.{subst}
use camkit.Capture.{
  Reply, answered, refused, xioctl, Device, CapHandle, Got, queue_from, capture_start,
  capture_get_data,
}
use camkit.Capture.Queue.{one, among, Lawful, xioctl-Ends}
use camkit.Capture.Asked.{AfterPut, lent, xioctl-put}
use camkit.Capture.Own.{Owned, Given, capture_get_data-Owned}

pub ok-inj : {A : Type 0} (x y : A) → ok x ≡ ok y → x ≡ y
ok-inj x y e = cc

among-zero : (i j : ℕ) → among i 0 j ≡ 0
among-zero i j = ground arith

among-suc : (i n j : ℕ) → among i (suc n) j ≡ one i j + among (i + 1) n j
among-suc i n j = ground arith

module _ {D : Type 0} (device : Device D) (tries : ℕ) (law : Lawful device tries) where
  abbrev pub Queued : (before : D) → (i n : ℕ) → D → Bool → Type 0
  Queued before i n d true = (j : ℕ) → law.queued d j ≡ law.queued before j + among i n j
  Queued before i n d false = Unit

  pub queue_from-Queued :
      (i n : ℕ) (d : D)
      → (d' : D) × (done : Bool) × (queue_from device tries i n d ≡ ok (d', done))
        × Queued d i n d' done
  unfolding queue_from
  queue_from-Queued i zero d = (d, true, refl, λ j. omega (arith, among-zero i j))
  queue_from-Queued i (suc n) d =
      let x = xioctl-put device tries law i d in
      go x.0 x.1 x.2 x.3 (queue_from-Queued (i + 1) n x.0)
    where
      Goal : Type 0
      Goal =
          (d' : D) × (done : Bool) × (queue_from device tries i (suc n) d ≡ ok (d', done))
          × Queued d i (suc n) d' done

      last :
          (d1 : D)
          → xioctl (device.qbuf i) tries d ≡ ok (d1, answered tt)
          → ((j : ℕ) → law.queued d1 j ≡ law.queued d j + one i j)
          → (d2 : D) (done : Bool) → queue_from device tries (i + 1) n d1 ≡ ok (d2, done)
          → Queued d1 (i + 1) n d2 done
          → Goal
      last d1 e after d2 true rest counts = (
        d2,
        true,
        rw (e, queue_from) rest,
        λ j. omega (arith, after j, counts j, among-suc i n j),
      )
      last d1 e after d2 false rest counts = (d2, false, rw (e, queue_from) rest, tt)

      go :
          (d1 : D) (r : Reply (Unit {0}))
          → xioctl (device.qbuf i) tries d ≡ ok (d1, r)
          → AfterPut device tries law (law.queued d) i d1 r
          → (d2 : D) × (done : Bool) × (queue_from device tries (i + 1) n d1 ≡ ok (d2, done))
            × Queued d1 (i + 1) n d2 done
          → Goal
      go d1 (answered done) e after rest = last d1 e after rest.0 rest.1 rest.2 rest.3
      go d1 (refused x) e after rest = (d1, false, rw (e, queue_from) refl, tt)

  pub xioctl-streamon :
      (d : D)
      → (d' : D) × (r : Reply (Unit {0})) × (xioctl device.streamon tries d ≡ ok (d', r))
        × ((j : ℕ) → law.queued d' j ≡ law.queued d j)
  xioctl-streamon d =
      xioctl-Ends device.streamon law.patience (λ d'. (j : ℕ) → law.queued d' j ≡ law.queued d j)
        (λ d' r. (j : ℕ) → law.queued d' j ≡ law.queued d j) law.streamon_interrupted
        (λ d' keeps e j. law.streamon_keeps d' j ∙ keeps j)
        (λ d' keeps not_interrupted j. law.streamon_keeps d' j ∙ keeps j) tries d (law.patient d)
        (λ j. refl)

  -- What the driver says when it has put the stream on holds then.
  xioctl-streamon_on :
      (On : D → Type 0)
      → ((d : D) → (device.streamon d).1 ≡ answered tt → On (device.streamon d).0)
      → (d : D)
      → (d' : D) × (r : Reply (Unit {0})) × (xioctl device.streamon tries d ≡ ok (d', r))
        × ((j : ℕ) → law.queued d' j ≡ law.queued d j)
        × (r ≡ answered tt → On d')
  xioctl-streamon_on On turns_on d =
      let x =
        xioctl-Ends device.streamon law.patience (λ d'. (j : ℕ) → law.queued d' j ≡ law.queued d j)
          (λ d' r. ((j : ℕ) → law.queued d' j ≡ law.queued d j) × (r ≡ answered tt → On d'))
          law.streamon_interrupted (λ d' keeps e j. law.streamon_keeps d' j ∙ keeps j)
          (λ d' keeps not_interrupted. (λ j. law.streamon_keeps d' j ∙ keeps j, turns_on d')) tries
          d (law.patient d) (λ j. refl) in
      (x.0, x.1, x.2, x.3.0, x.3.1)

  -- A handle as `capture_open` leaves it, with none of its buffers at the driver.
  pub record Idle (handle : CapHandle) (d : D) : Type 0 where
    pub put : handle.v4lbuf_put ≡ true
    pub none_queued : (j : ℕ) → law.queued d j ≡ 0
    pub mapped : handle.nbuffers ≤ length handle.buffers
    pub some_buffers : 0 < handle.nbuffers

  Idle-lent : (handle : CapHandle) (j : ℕ) → handle.v4lbuf_put ≡ true → lent handle j ≡ 0
  Idle-lent handle j p = rw p refl

  -- Every buffer is in one place.
  abbrev pub Counted : CapHandle → D → Type 0
  Counted handle d = (j : ℕ) → law.queued d j + lent handle j ≡ among 0 handle.nbuffers j

  -- `capture_start` on an idle handle returns; if it returns 0, every buffer is in one place, and the
  -- stream is on.
  pub capture_start-Counted :
      (On : D → Type 0)
      → ((d : D) → (device.streamon d).1 ≡ answered tt → On (device.streamon d).0)
      → (handle : CapHandle) (d : D) → Idle handle d
      → (d' : D) × (done : Bool) × (capture_start device tries handle d ≡ ok (d', done))
        × (done ≡ true → Counted handle d' × On d')
  unfolding capture_start
  capture_start-Counted On turns_on handle d idle =
      let q = queue_from-Queued 0 handle.nbuffers d in go q.0 q.1 q.2 q.3
    where
      Goal : Type 0
      Goal =
          (d' : D) × (done : Bool) × (capture_start device tries handle d ≡ ok (d', done))
          × (done ≡ true → Counted handle d' × On d')

      on :
          (d1 : D)
          → queue_from device tries 0 handle.nbuffers d ≡ ok (d1, true)
          → Queued d 0 handle.nbuffers d1 true
          → (d2 : D) (r : Reply (Unit {0})) → xioctl device.streamon tries d1 ≡ ok (d2, r)
          → ((j : ℕ) → law.queued d2 j ≡ law.queued d1 j)
          → (r ≡ answered tt → On d2)
          → Goal
      on d1 e counts d2 (answered done) s keeps is_on = (
        d2,
        true,
        rw (e, s, capture_start) refl,
        λ t. (
          λ j. omega (arith, keeps j, counts j, idle.none_queued j, Idle-lent handle j idle.put),
          is_on refl,
        ),
      )
      on d1 e counts d2 (refused x) s keeps is_on =
          (d2, false, rw (e, s, capture_start) refl, λ t. cc)

      go :
          (d1 : D) (done : Bool)
          → queue_from device tries 0 handle.nbuffers d ≡ ok (d1, done)
          → Queued d 0 handle.nbuffers d1 done
          → Goal
      go d1 true e counts =
          let s = xioctl-streamon_on On turns_on d1 in on d1 e counts s.0 s.1 s.2 s.3 s.4
      go d1 false e counts = (d1, false, rw (e, capture_start) refl, λ t. cc)

  pub capture_start-Owned :
      (handle : CapHandle) (d : D)
      → Idle handle d
      → (d' : D) × (done : Bool) × (capture_start device tries handle d ≡ ok (d', done))
        × (done ≡ true → Owned device tries law handle d')
  capture_start-Owned handle d idle =
      let s = capture_start-Counted (λ d. Unit {0}) (λ d e. tt) handle d idle in
      (
        s.0,
        s.1,
        s.2,
        λ t. record {
          counted = λ j. omega (arith, (s.3 t).0 j);
          mapped = idle.mapped;
          some_buffers = idle.some_buffers;
        },
      )

-- The states that calls of `capture_get_data` lead to.
module _ {D : Type 0} (device : Device D) (tries : ℕ) where
  pub data Reach (handle : CapHandle) (d : D) : CapHandle → D → Type 0 where
    here : Reach handle d handle d
    next :
        {h' h'' : CapHandle} {d' d'' : D} {g : Got}
        → Reach handle d h' d'
        → capture_get_data device tries h' d' ≡ ok (h'', d'', g)
        → Reach handle d h'' d''

module _ {D : Type 0} (device : Device D) (tries : ℕ) (law : Lawful device tries) where
  pub Reach-Owned :
      {handle : CapHandle} {d : D} {h' : CapHandle} {d' : D}
      → Owned device tries law handle d
      → Reach device tries handle d h' d'
      → Owned device tries law h' d'
  Reach-Owned own here = own
  Reach-Owned own (next {h'} {h''} {d'} {d''} {g} r e) =
      let x = capture_get_data-Owned device tries law h' d' (Reach-Owned own r) in
      let same : (h'', d'', g) ≡ (x.0, x.1, x.2) = ok-inj _ _ (sym e ∙ x.3) in
      subst (λ p. Owned device tries law p.0 p.1) (sym same) x.4

  -- Let fewer than `tries` requests in a row be interrupted. After an idle handle was started with
  -- success, each of the calls of `capture_get_data` returns, however many there are: the number that
  -- it is given is in range, and the buffer that it gives to the client is mapped and not with the
  -- driver, also when the driver loses buffers with `EIO`.
  pub capture_get_data-capture_start :
      (handle : CapHandle) (d d0 : D) {h' : CapHandle} {d' : D}
      → Idle device tries law handle d
      → capture_start device tries handle d ≡ ok (d0, true)
      → Reach device tries handle d0 h' d'
      → (h'' : CapHandle) × (d'' : D) × (g : Got) × (capture_get_data device tries h' d'
          ≡ ok (h'', d'', g))
        × Given device tries law h'' d'' g
  capture_get_data-capture_start handle d d0 {h'} {d'} idle started reached =
      let s = capture_start-Owned device tries law handle d idle in
      let same : (d0, true) ≡ (s.0, s.1) = ok-inj _ _ (sym started ∙ s.2) in
      let own : Owned device tries law handle d0 =
        subst (λ p. Owned device tries law handle p) (sym (ap (λ p. p.0) same))
          (s.3 (sym (ap (λ p. p.1) same))) in
      let x = capture_get_data-Owned device tries law h' d' (Reach-Owned own reached) in
      (x.0, x.1, x.2, x.3, x.5)
