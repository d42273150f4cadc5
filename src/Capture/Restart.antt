-- ===== src/Capture/Restart.antt =====
-- What src/v4l_capture.c does when a stream is started while the client has a buffer of the one before.
use camkit.Base.{ℕ, zero, suc, ◌+◌, ◌≤◌, ◌<◌, ◌≡◌, refl, sym, ap, ◌∙◌, Bool, true, false, ok, arith}
use mathlib.Core.Path.{subst}
use camkit.Capture.{
  Reply, answered, refused, einval, xioctl, Device, CapHandle, Ready, select_failed, timeout,
  readable, failed, put_back, queue_from, capture_start, capture_get_data,
}
use camkit.Capture.Queue.{among, Lawful}
use camkit.Capture.Session.{Reach, here, next, ok-inj, queue_from-Queued, xioctl-streamon, Queued}

true_ne_false : ¬ (true ≡ false)
true_ne_false e = cc

among_in : (n j : ℕ) → j < n → among 0 n j ≡ 1
among_in n j h = ground arith

module _ {D : Type 0} (device : Device D) (tries : ℕ) (law : Lawful device tries)
    -- The driver does not take a buffer that it has already.
    (strict : (i : ℕ) (d : D) → 1 ≤ law.queued d i → (device.qbuf i d).1 ≡ refused einval) where
  -- The client has a buffer, and so has the driver.
  abbrev IsStuck : CapHandle → D → Type 0
  IsStuck handle d = (handle.v4lbuf_put ≡ false) × (1 ≤ law.queued d handle.v4lbuf)

  refused_at_once :
      (fuel : ℕ) (call : D → D × Reply (Unit {0})) (d : D)
      → 0 < fuel
      → (call d).1 ≡ refused einval
      → xioctl call fuel d ≡ ok ((call d).0, refused einval)
  unfolding xioctl
  refused_at_once zero call d h e = absurd (omega arith)
  refused_at_once (suc fuel) call d h e = rw (e, xioctl) refl

  capture_get_data-IsStuck :
      (handle : CapHandle) (d : D)
      → IsStuck handle d
      → (d' : D) × (capture_get_data device tries handle d ≡ ok (handle, d', failed))
        × IsStuck handle d'
  unfolding capture_get_data put_back
  capture_get_data-IsStuck handle d stuck = go (device.select d).1 refl
    where
      s : D
      s = (device.select d).0

      still : 1 ≤ law.queued (device.select d).0 handle.v4lbuf
      still = omega (arith, law.select_keeps d handle.v4lbuf, stuck.1)

      asked :
          xioctl (device.qbuf handle.v4lbuf) tries (device.select d).0
          ≡ ok ((device.qbuf handle.v4lbuf (device.select d).0).0, refused einval)
      asked =
          refused_at_once tries (device.qbuf handle.v4lbuf) (device.select d).0
            (omega (arith, law.patient d)) (strict handle.v4lbuf (device.select d).0 still)

      after : 1 ≤ law.queued (device.qbuf handle.v4lbuf (device.select d).0).0 handle.v4lbuf
      after = omega (
        arith,
        still,
        law.qbuf_refused handle.v4lbuf (device.select d).0 einval
            (strict handle.v4lbuf (device.select d).0 still) handle.v4lbuf,
      )

      go :
          (r : Ready)
          → (device.select d).1 ≡ r
          → (d' : D) × (capture_get_data device tries handle d ≡ ok (handle, d', failed))
            × IsStuck handle d'
      go readable e = (
        (device.qbuf handle.v4lbuf (device.select d).0).0,
        simp (e, stuck.0, asked, capture_get_data, put_back),
        (stuck.0, after),
      )
      go select_failed e = ((device.select d).0, rw (e, capture_get_data) refl, (stuck.0, still))
      go timeout e = ((device.select d).0, rw (e, capture_get_data) refl, (stuck.0, still))

  capture_start-IsStuck :
      (handle : CapHandle) (d d0 : D)
      → handle.v4lbuf_put ≡ false
      → handle.v4lbuf < handle.nbuffers
      → capture_start device tries handle d ≡ ok (d0, true)
      → IsStuck handle d0
  unfolding capture_start
  capture_start-IsStuck handle d d0 out known started =
      let q = queue_from-Queued device tries law 0 handle.nbuffers d in (out, go q.0 q.1 q.2 q.3)
    where
      on :
          (d1 : D)
          → queue_from device tries 0 handle.nbuffers d ≡ ok (d1, true)
          → ((j : ℕ) → law.queued d1 j ≡ law.queued d j + among 0 handle.nbuffers j)
          → (d2 : D) (r : Reply (Unit {0})) → xioctl device.streamon tries d1 ≡ ok (d2, r)
          → ((j : ℕ) → law.queued d2 j ≡ law.queued d1 j)
          → 1 ≤ law.queued d0 handle.v4lbuf
      on d1 e counts d2 (answered done) s keeps =
          let same : (d0, true) ≡ (d2, true) =
            ok-inj _ _ (sym started ∙ rw (e, s, capture_start) refl) in
          let j = handle.v4lbuf in
          let there : 1 ≤ law.queued d2 j =
            omega (arith, keeps j, counts j, among_in handle.nbuffers j known) in
          subst (λ x. 1 ≤ law.queued x j) (sym (ap (λ p. p.0) same)) there
      on d1 e counts d2 (refused x) s keeps =
          let same : (d0, true) ≡ (d2, false) =
            ok-inj _ _ (sym started ∙ rw (e, s, capture_start) refl) in
          absurd (true_ne_false (ap (λ p. p.1) same))

      go :
          (d1 : D) (done : Bool)
          → queue_from device tries 0 handle.nbuffers d ≡ ok (d1, done)
          → Queued device tries law d 0 handle.nbuffers d1 done
          → 1 ≤ law.queued d0 handle.v4lbuf
      go d1 true e counts =
          let s = xioctl-streamon device tries law d1 in on d1 e counts s.0 s.1 s.2 s.3
      go d1 false e counts =
          let same : (d0, true) ≡ (d1, false) =
            ok-inj _ _ (sym started ∙ rw (e, capture_start) refl) in
          absurd (true_ne_false (ap (λ p. p.1) same))

  Reach-IsStuck :
      {handle : CapHandle} {d : D} {h' : CapHandle} {d' : D}
      → IsStuck handle d
      → Reach device tries handle d h' d'
      → IsStuck h' d'
  Reach-IsStuck stuck here = stuck
  Reach-IsStuck stuck (next {h'} {h''} {d'} {d''} {g} r e) =
      let x = capture_get_data-IsStuck h' d' (Reach-IsStuck stuck r) in
      let same : (h'', d'', g) ≡ (h', x.0, failed) = ok-inj _ _ (sym e ∙ x.1) in
      subst (λ p. IsStuck p.0 p.1) (sym same) x.2

  -- When a stream is started with success while the client still has a buffer of an earlier stream,
  -- each call of `capture_get_data` returns -1 from then on, if the driver refuses a buffer that it
  -- has already.
  pub capture_get_data-restarted :
      (handle : CapHandle) (d d0 : D) {h' : CapHandle} {d' : D}
      → handle.v4lbuf_put ≡ false
      → handle.v4lbuf < handle.nbuffers
      → capture_start device tries handle d ≡ ok (d0, true)
      → Reach device tries handle d0 h' d'
      → (d'' : D) × (capture_get_data device tries h' d' ≡ ok (h', d'', failed))
  capture_get_data-restarted handle d d0 {h'} {d'} out known started reached =
      let stuck = Reach-IsStuck (capture_start-IsStuck handle d d0 out known started) reached in
      let x = capture_get_data-IsStuck h' d' stuck in (x.0, x.1)
