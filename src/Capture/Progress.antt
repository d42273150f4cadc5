-- ===== src/Capture/Progress.antt =====
-- That src/v4l_capture.c gives a picture in every call, where the driver has one in time.
use camkit.Base.{
  ℕ, zero, suc, ◌+◌, ◌%◌, ◌^◌, ◌≤◌, ◌<◌, ◌≡◌, refl, sym, ap, ◌∙◌, ◌⊎◌, inl, inr, Bool, true, false,
  ok, get_or, get_elem?-eq-get_or, arith, lt→ltb, length, if◌then◌else◌,
}
use mathlib.Core.Path.{subst}
use camkit.Capture.{
  eintr, Reply, answered, refused, xioctl, readable, Buffer, Device, CapHandle, got, put_back,
  fetch, capture_get_data, capture_start,
}
use camkit.Capture.Queue.{one, among, Lawful, xioctl-Ends}
use camkit.Capture.Asked.{lent, lent_none, lent_out, one_self, among_lem}
use camkit.Capture.Session.{Idle, Reach, here, next, Counted, capture_start-Counted, ok-inj}

among_here : (n j : ℕ) → j < n → among 0 n j ≡ 1
among_here n j h = ground arith

among_le : (n j : ℕ) → among 0 n j ≤ 1
among_le n j = ground arith

-- Of two buffers the client has one at most.
lent_some : (handle : CapHandle) → (lent handle 0 ≡ 0) ⊎ (lent handle 1 ≡ 0)
lent_some handle = go handle.v4lbuf_put handle.v4lbuf
  where
    go :
        (put : Bool) (v : ℕ)
        → ((if put then 0 else one v 0) ≡ 0) ⊎ ((if put then 0 else one v 1) ≡ 0)
    go true v = inl refl
    go false zero = inr refl
    go false (suc v) = inl (ground arith)

-- A request that cannot be refused ends with an answer.
abbrev Answered : {D A : Type 0} → (D → A → Type 0) → D → Reply A → Type 0
Answered Ends d (answered a) = Ends d a
Answered Ends d (refused e) = ⊥

module _ {D : Type 0} (device : Device D) (tries : ℕ) (law : Lawful device tries) where
  -- A driver of `n` buffers that is in time. While its stream is on and it has a buffer, `select`
  -- finds a filled one. It then takes each of the `n` buffers that it does not have, and gives one;
  -- but a signal may interrupt these requests.
  pub record InTime (n : ℕ) : Type 1 where
    pub streaming : D → Type 0
    pub filled : D → Type 0
    pub starts : (d : D) → (device.streamon d).1 ≡ answered tt → streaming (device.streamon d).0
    pub ready :
        (i : ℕ) (d : D)
        → streaming d
        → 1 ≤ law.queued d i
        → ((device.select d).1 ≡ readable) × filled (device.select d).0
    pub takes :
        (i : ℕ) (d : D)
        → i < n
        → filled d
        → law.queued d i ≡ 0
        → ((device.qbuf i d).1 ≡ answered tt) ⊎ ((device.qbuf i d).1 ≡ refused eintr)
    pub qbuf_filled : (i : ℕ) (d : D) → filled d → filled (device.qbuf i d).0
    pub gives :
        (d : D)
        → filled d
        → ((j : ℕ) × ((device.dqbuf d).1 ≡ answered j)) ⊎ ((device.dqbuf d).1 ≡ refused eintr)
    pub dqbuf_streams :
        (j : ℕ) (d : D) → filled d → (device.dqbuf d).1 ≡ answered j → streaming (device.dqbuf d).0
    pub dqbuf_interrupted :
        (d : D) → filled d → (device.dqbuf d).1 ≡ refused eintr → filled (device.dqbuf d).0

  -- What a call of `capture_get_data` ends with: a picture, counted modulo 2 ^ 32.
  abbrev pub Pictures : CapHandle → D → Type 0
  Pictures handle d =
      (h' : CapHandle) × (d' : D) × (start : ℕ) × (capture_get_data device tries handle d
        ≡ ok (h', d', got start handle.image_size))
      × (h'.image_counter ≡ (handle.image_counter + 1) % 2 ^ 32)

  module _ (n : ℕ) (driver : InTime n) where
    -- The state between two calls.
    record Running (handle : CapHandle) (d : D) : Type 0 where
      streams : driver.streaming d
      counted : Counted device tries law handle d
      same_count : handle.nbuffers ≡ n
      two : 2 ≤ n
      mapped : n ≤ length handle.buffers

    abbrev Gave : (i : ℕ) (d d' : D) → Type 0
    Gave i d d' = ((j : ℕ) → law.queued d' j ≡ law.queued d j + one i j) × driver.filled d'

    abbrev Taken : (d d' : D) → (i : ℕ) → Type 0
    Taken d d' i = ((j : ℕ) → law.queued d j ≡ law.queued d' j + one i j) × driver.streaming d'

    -- What the interruptions keep.
    abbrev StillFilled : (d d' : D) → Type 0
    StillFilled d d' = ((j : ℕ) → law.queued d' j ≡ law.queued d j) × driver.filled d'

    xioctl-put_answered :
        (i : ℕ) (d : D)
        → i < n
        → driver.filled d
        → law.queued d i ≡ 0
        → (d' : D) × (xioctl (device.qbuf i) tries d ≡ ok (d', answered tt)) × Gave i d d'
    xioctl-put_answered i d known full free = result x.0 x.1 x.2 x.3
      where
        ends :
            (e : D)
            → StillFilled d e
            → ¬ ((device.qbuf i e).1 ≡ refused eintr)
            → ((device.qbuf i e).1 ≡ answered tt) ⊎ ((device.qbuf i e).1 ≡ refused eintr)
            → Answered (λ d' u. Gave i d d') (device.qbuf i e).0 (device.qbuf i e).1
        ends e keeps never (inl given) =
            subst (Answered (λ d' u. Gave i d d') (device.qbuf i e).0) (sym given) (
              λ j. omega (arith, law.qbuf_answered i e given j, keeps.0 j),
              driver.qbuf_filled i e keeps.1,
            )
        ends e keeps never (inr int) = absurd (never int)

        x :
            (d' : D) × (r : Reply (Unit {0})) × (xioctl (device.qbuf i) tries d ≡ ok (d', r))
            × Answered (λ d' u. Gave i d d') d' r
        x =
            xioctl-Ends (device.qbuf i) law.patience (StillFilled d)
              (Answered (λ d' u. Gave i d d')) (law.qbuf_interrupted i)
              (λ d' keeps e.
                (λ j. law.qbuf_refused i d' eintr e j ∙ keeps.0 j, driver.qbuf_filled i d' keeps.1))
              (λ d' keeps never.
                ends d' keeps never (driver.takes i d' known keeps.1 (keeps.0 i ∙ free)))
              tries d (law.patient d) (λ j. refl, full)

        result :
            (d' : D) (r : Reply (Unit {0}))
            → xioctl (device.qbuf i) tries d ≡ ok (d', r)
            → Answered (λ d' u. Gave i d d') d' r
            → (d' : D) × (xioctl (device.qbuf i) tries d ≡ ok (d', answered tt)) × Gave i d d'
        result d' (answered done) e after = (d', e, after)
        result d' (refused r) e after = absurd after

    xioctl-take_answered :
        (d : D)
        → driver.filled d
        → (d' : D) × (i : ℕ) × (xioctl device.dqbuf tries d ≡ ok (d', answered i)) × Taken d d' i
    xioctl-take_answered d full = result x.0 x.1 x.2 x.3
      where
        ends :
            (e : D)
            → StillFilled d e
            → ¬ ((device.dqbuf e).1 ≡ refused eintr)
            → ((j : ℕ) × ((device.dqbuf e).1 ≡ answered j)) ⊎ ((device.dqbuf e).1 ≡ refused eintr)
            → Answered (Taken d) (device.dqbuf e).0 (device.dqbuf e).1
        ends e keeps never (inl (j, given)) =
            subst (Answered (Taken d) (device.dqbuf e).0) (sym given) (
              λ k. omega (arith, law.dqbuf_answered e j given k, keeps.0 k),
              driver.dqbuf_streams j e keeps.1 given,
            )
        ends e keeps never (inr int) = absurd (never int)

        x :
            (d' : D) × (r : Reply ℕ) × (xioctl device.dqbuf tries d ≡ ok (d', r))
            × Answered (Taken d) d' r
        x =
            xioctl-Ends device.dqbuf law.patience (StillFilled d) (Answered (Taken d))
              law.dqbuf_interrupted
              (λ d' keeps e. (
                λ k. law.dqbuf_refused d' eintr (λ f. cc) e k ∙ keeps.0 k,
                driver.dqbuf_interrupted d' keeps.1 e,
              ))
              (λ d' keeps never. ends d' keeps never (driver.gives d' keeps.1)) tries d
              (law.patient d) (λ k. refl, full)

        result :
            (d' : D) (r : Reply ℕ)
            → xioctl device.dqbuf tries d ≡ ok (d', r)
            → Answered (Taken d) d' r
            → (d' : D) × (i : ℕ) × (xioctl device.dqbuf tries d ≡ ok (d', answered i))
              × Taken d d' i
        result d' (answered j) e after = (d', j, e, after)
        result d' (refused r) e after = absurd after

    abbrev RunsOn : CapHandle → D → Type 0
    RunsOn handle d =
        (h' : CapHandle) × (d' : D) × (start : ℕ) × (capture_get_data device tries handle d
          ≡ ok (h', d', got start handle.image_size))
        × (h'.image_counter ≡ (handle.image_counter + 1) % 2 ^ 32)
        × Running h' d'

    fetch-Running :
        (handle : CapHandle) (d : D)
        → driver.filled d
        → Counted device tries law handle d
        → handle.nbuffers ≡ n
        → 2 ≤ n
        → n ≤ length handle.buffers
        → handle.v4lbuf_put ≡ true
        → (h' : CapHandle) × (d' : D) × (start : ℕ) × (fetch device tries handle d
            ≡ ok (h', d', got start handle.image_size))
          × (h'.image_counter ≡ (handle.image_counter + 1) % 2 ^ 32)
          × Running h' d'
    unfolding fetch
    fetch-Running handle d full counted same two mapped put =
        let t = xioctl-take_answered d full in
        let i = t.1 in
        let known =
          among_lem handle.nbuffers i
            (omega (arith, t.3.0 i, counted i, lent_none handle i put, one_self i)) in
        let zero_buffer : Buffer = record { start = 0; length = 0 } in
        let is_b =
          get_elem?-eq-get_or handle.buffers i zero_buffer (omega (arith, same, mapped, known.0)) in
        (
          record handle {
            v4lbuf = i;
            v4lbuf_put = false;
            image_counter = (handle.image_counter + 1) % 2 ^ 32;
          },
          t.0,
          (get_or handle.buffers i zero_buffer).start,
          rw (t.2, lt→ltb i handle.nbuffers known.0, is_b, fetch) refl,
          refl,
          record {
            streams = t.3.1;
            counted = λ j. omega (arith, t.3.0 j, counted j, lent_none handle j put);
            same_count = same;
            two = two;
            mapped = mapped;
          },
        )

    -- A handle that has its buffer back, with a filled one at the driver, gives a picture.
    put_back-Running :
        (handle h1 : CapHandle) (d d1 : D)
        → (device.select d).1 ≡ readable
        → put_back device tries handle (device.select d).0 ≡ ok (h1, d1, true)
        → h1.v4lbuf_put ≡ true
        → h1.image_size ≡ handle.image_size
        → h1.image_counter ≡ handle.image_counter
        → driver.filled d1
        → Counted device tries law h1 d1
        → h1.nbuffers ≡ n
        → 2 ≤ n
        → n ≤ length h1.buffers
        → RunsOn handle d
    unfolding capture_get_data
    put_back-Running handle h1 d d1 ready back put size counter full counted same two mapped =
        let f = fetch-Running h1 d1 full counted same two mapped put in
        (
          f.0,
          f.1,
          f.2,
          rw (ready, back, capture_get_data) (f.3 ∙ ap (λ l. ok (f.0, f.1, got f.2 l)) size),
          f.4 ∙ ap (λ c. (c + 1) % 2 ^ 32) counter,
          f.5,
        )

    put_back-put :
        (handle : CapHandle) (s : D)
        → handle.v4lbuf_put ≡ true
        → put_back device tries handle s ≡ ok (handle, s, true)
    unfolding put_back
    put_back-put handle s put = simp (put, put_back)

    put_back-out :
        (handle : CapHandle) (s s1 : D)
        → handle.v4lbuf_put ≡ false
        → xioctl (device.qbuf handle.v4lbuf) tries s ≡ ok (s1, answered tt)
        → put_back device tries handle s ≡ ok (record handle { v4lbuf_put = true }, s1, true)
    unfolding put_back
    put_back-out handle s s1 out given = rw (out, given, put_back) refl

    -- The driver has one of the first two buffers.
    has_one : (handle : CapHandle) (d : D) → Running handle d → (i : ℕ) × (1 ≤ law.queued d i)
    has_one handle d run = elim (lent_some handle) [
      | inl e ↦ (
        0,
        omega (
          arith,
          e,
          run.counted 0,
          among_here handle.nbuffers 0 (omega (arith, run.same_count, run.two)),
        ),
      )
      | inr e ↦ (
        1,
        omega (
          arith,
          e,
          run.counted 1,
          among_here handle.nbuffers 1 (omega (arith, run.same_count, run.two)),
        ),
      )
    ]

    capture_get_data-Running : (handle : CapHandle) (d : D) → Running handle d → RunsOn handle d
    capture_get_data-Running handle d run =
        let some_one = has_one handle d run in
        let r = driver.ready some_one.0 d run.streams some_one.1 in
        go r.0 r.1 handle.v4lbuf_put refl
      where
        go :
            (device.select d).1 ≡ readable
            → driver.filled (device.select d).0
            → (b : Bool) → handle.v4lbuf_put ≡ b
            → RunsOn handle d
        go ready full true put =
            put_back-Running handle handle d (device.select d).0 ready
              (put_back-put handle (device.select d).0 put) put refl refl full
              (λ j. omega (arith, law.select_keeps d j, run.counted j)) run.same_count run.two
              run.mapped
        go ready full false out =
            let v = handle.v4lbuf in
            let here : 1 ≤ among 0 handle.nbuffers v =
              omega (arith, run.counted v, lent_out handle v out, one_self v) in
            let known = among_lem handle.nbuffers v here in
            let free : law.queued (device.select d).0 v ≡ 0 = omega (
              arith,
              law.select_keeps d v,
              run.counted v,
              lent_out handle v out,
              one_self v,
              known.1,
            ) in
            let q =
              xioctl-put_answered v (device.select d).0 (omega (arith, run.same_count, known.0))
                full free in
            put_back-Running handle (record handle { v4lbuf_put = true }) d q.0 ready
              (put_back-out handle (device.select d).0 q.0 out q.1) refl refl refl q.2.1
              (λ j.
                omega (arith, q.2.0 j, law.select_keeps d j, run.counted j, lent_out handle j out))
              run.same_count run.two run.mapped

    Reach-Running :
        {handle : CapHandle} {d : D} {h' : CapHandle} {d' : D}
        → Running handle d
        → Reach device tries handle d h' d'
        → Running h' d'
    Reach-Running run here = run
    Reach-Running run (next {h'} {h''} {d'} {d''} {g} r e) =
        let x = capture_get_data-Running h' d' (Reach-Running run r) in
        let same : (h'', d'', g) ≡ (x.0, x.1, got x.2 h'.image_size) = ok-inj _ _ (sym e ∙ x.3) in
        subst (λ p. Running p.0 p.1) (sym same) x.5

    -- Let the handle have at least two buffers, let the driver be in time with them, and let fewer than
    -- `tries` requests in a row be interrupted. After the idle handle was started with success, every
    -- call of `capture_get_data` gives a picture of the image's size, and counts it modulo 2 ^ 32.
    pub capture_get_data-InTime :
        (handle : CapHandle) (d d0 : D) {h' : CapHandle} {d' : D}
        → Idle device tries law handle d
        → handle.nbuffers ≡ n
        → 2 ≤ n
        → capture_start device tries handle d ≡ ok (d0, true)
        → Reach device tries handle d0 h' d'
        → Pictures h' d'
    capture_get_data-InTime handle d d0 {h'} {d'} idle same_count two started reached =
        let s =
          capture_start-Counted device tries law driver.streaming driver.starts handle d idle in
        let same : (d0, true) ≡ (s.0, s.1) = ok-inj _ _ (sym started ∙ s.2) in
        let on = s.3 (sym (ap (λ p. p.1) same)) in
        let at_start : Running handle s.0 = record {
          streams = on.1;
          counted = on.0;
          same_count = same_count;
          two = two;
          mapped = omega (arith, idle.mapped, same_count);
        } in
        let run : Running handle d0 =
          subst (λ d. Running handle d) (sym (ap (λ p. p.0) same)) at_start in
        let x = capture_get_data-Running h' d' (Reach-Running run reached) in
        (x.0, x.1, x.2, x.3, x.4)
