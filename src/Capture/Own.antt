-- ===== src/Capture/Own.antt =====
-- Where each buffer of src/v4l_capture.c is: with the driver, or with the client, never with both.
use camkit.Base.{
  ℕ, ◌+◌, ◌≤◌, ◌<◌, ◌≡◌, refl, sym, ◌∙◌, Bool, true, false, some, ok, get_elem?, length, get_or,
  get_elem?-eq-get_or, arith, lt→ltb, ◌%◌, ◌^◌,
}
use camkit.Capture.{
  Errno, eintr, einval, eagain, eio, other, refusal, Reply, answered, refused, xioctl,
  select_failed, timeout, readable, Ready, Buffer, Device, CapHandle, Got, got, failed, again,
  put_back, fetch, capture_get_data,
}
use camkit.Capture.Queue.{among, Lawful}
use camkit.Capture.Asked.{
  AfterPut, AfterTake, AfterTake-le, lent, lent_none, lent_out, one_self, among_lem, xioctl-put,
  xioctl-take,
}

module _ {D : Type 0} (device : Device D) (tries : ℕ) (law : Lawful device tries) where
  -- No buffer is in two places, and only the handle's buffers are in one.
  pub record Owned (handle : CapHandle) (d : D) : Type 0 where
    pub counted : (j : ℕ) → law.queued d j + lent handle j ≤ among 0 handle.nbuffers j
    pub mapped : handle.nbuffers ≤ length handle.buffers
    pub some_buffers : 0 < handle.nbuffers

  -- What the client is given is a mapped buffer, and the driver does not have it.
  abbrev pub Given : CapHandle → D → Got → Type 0
  Given handle d (got start len) =
      (b : Buffer) × (get_elem? handle.buffers handle.v4lbuf ≡ some b)
      × (start ≡ b.start)
      × (len ≡ handle.image_size)
      × (law.queued d handle.v4lbuf ≡ 0)
  Given handle d failed = Unit
  Given handle d again = Unit

  -- What a call does to the places of the buffers: it keeps them all, but where it returns -1 the
  -- driver may have lost some.
  abbrev pub Kept : CapHandle → D → CapHandle → D → Got → Type 0
  Kept handle d h' d' failed =
      (j : ℕ) → law.queued d' j + lent h' j ≤ law.queued d j + lent handle j
  Kept handle d h' d' _ = (j : ℕ) → law.queued d' j + lent h' j ≡ law.queued d j + lent handle j

  refusal-Kept :
      (handle : CapHandle) (d : D) (h' : CapHandle) (d' : D) (e : Errno)
      → AfterTake device tries law (law.queued d) d' (refused e)
      → ((j : ℕ) → lent h' j ≡ lent handle j)
      → Kept handle d h' d' (refusal e)
  refusal-Kept handle d h' d' eintr after same = λ j. omega (arith, after j, same j)
  refusal-Kept handle d h' d' einval after same = λ j. omega (arith, after j, same j)
  refusal-Kept handle d h' d' eagain after same = λ j. omega (arith, after j, same j)
  refusal-Kept handle d h' d' eio after same = λ j. omega (arith, after j, same j)
  refusal-Kept handle d h' d' other after same = λ j. omega (arith, after j, same j)

  Kept-same :
      (handle h0 h' : CapHandle) (d d0 d' : D) (g : Got)
      → ((j : ℕ) → law.queued d0 j + lent h0 j ≡ law.queued d j + lent handle j)
      → Kept h0 d0 h' d' g
      → Kept handle d h' d' g
  Kept-same handle h0 h' d d0 d' (got start len) same kept = λ j. kept j ∙ same j
  Kept-same handle h0 h' d d0 d' again same kept = λ j. kept j ∙ same j
  Kept-same handle h0 h' d d0 d' failed same kept = λ j. omega (arith, kept j, same j)

  refusal-Given : (handle : CapHandle) (d : D) (e : Errno) → Given handle d (refusal e)
  refusal-Given handle d eintr = tt
  refusal-Given handle d einval = tt
  refusal-Given handle d eagain = tt
  refusal-Given handle d eio = tt
  refusal-Given handle d other = tt

  -- After `put_back` returned true the driver has all the buffers.
  abbrev Back : CapHandle → Bool → Type 0
  Back handle true = handle.v4lbuf_put ≡ true
  Back handle false = Unit

  -- The same buffers are with one of both.
  abbrev Same : CapHandle → D → CapHandle → D → Type 0
  Same handle d h' d' = (j : ℕ) → law.queued d' j + lent h' j ≡ law.queued d j + lent handle j

  put_back-Owned :
      (handle : CapHandle) (d : D)
      → Owned handle d
      → (h' : CapHandle) × (d' : D) × (done : Bool) × (put_back device tries handle d
          ≡ ok (h', d', done))
        × Owned h' d'
        × Back h' done
        × Same handle d h' d'
  unfolding put_back
  put_back-Owned handle d own =
      go handle.v4lbuf_put refl (xioctl-put device tries law handle.v4lbuf d)
    where
      Goal : Type 0
      Goal =
          (h' : CapHandle) × (d' : D) × (done : Bool) × (put_back device tries handle d
            ≡ ok (h', d', done))
          × Owned h' d'
          × Back h' done
          × Same handle d h' d'

      asked :
          handle.v4lbuf_put ≡ false
          → (d' : D) (r : Reply (Unit {0}))
          → xioctl (device.qbuf handle.v4lbuf) tries d ≡ ok (d', r)
          → AfterPut device tries law (law.queued d) handle.v4lbuf d' r
          → Goal
      asked p d' (answered tt) e after = (
        record handle { v4lbuf_put = true },
        d',
        true,
        rw (p, e) refl,
        record {
          counted = λ j. omega (arith, after j, own.counted j, lent_out handle j p);
          mapped = own.mapped;
          some_buffers = own.some_buffers;
        },
        refl,
        λ j. omega (arith, after j, lent_out handle j p),
      )
      asked p d' (refused x) e after = (
        handle,
        d',
        false,
        rw (p, e) refl,
        record {
          counted = λ j. omega (arith, after j, own.counted j);
          mapped = own.mapped;
          some_buffers = own.some_buffers;
        },
        tt,
        λ j. omega (arith, after j),
      )

      go :
          (b : Bool)
          → handle.v4lbuf_put ≡ b
          → (d' : D) × (r : Reply (Unit {0})) × (xioctl (device.qbuf handle.v4lbuf) tries d
              ≡ ok (d', r))
            × AfterPut device tries law (law.queued d) handle.v4lbuf d' r
          → Goal
      go true p x = (handle, d, true, rw p refl, own, p, λ j. refl)
      go false p x = asked p x.0 x.1 x.2 x.3

  fetch-Owned :
      (handle : CapHandle) (d : D)
      → Owned handle d
      → handle.v4lbuf_put ≡ true
      → (h' : CapHandle) × (d' : D) × (g : Got) × (fetch device tries handle d ≡ ok (h', d', g))
        × Owned h' d'
        × Given h' d' g
        × Kept handle d h' d' g
  unfolding fetch
  fetch-Owned handle d own put = let x = xioctl-take device tries law d in go x.0 x.1 x.2 x.3
    where
      none_lent : (j : ℕ) → lent handle j ≡ 0
      none_lent j = lent_none handle j put

      go :
          (d' : D) (r : Reply ℕ)
          → xioctl device.dqbuf tries d ≡ ok (d', r)
          → AfterTake device tries law (law.queued d) d' r
          → (h' : CapHandle) × (d' : D) × (g : Got) × (fetch device tries handle d ≡ ok (h', d', g))
            × Owned h' d'
            × Given h' d' g
            × Kept handle d h' d' g
      go d' (refused e) asked after = (
        record handle { v4lbuf = 0 },
        d',
        refusal e,
        rw asked refl,
        record {
          counted = λ j. omega (
            arith,
            AfterTake-le device tries law (law.queued d) d' e after j,
            own.counted j,
            none_lent j,
            lent_none (record handle { v4lbuf = 0 }) j put,
          );
          mapped = own.mapped;
          some_buffers = own.some_buffers;
        },
        refusal-Given (record handle { v4lbuf = 0 }) d' e,
        refusal-Kept handle d (record handle { v4lbuf = 0 }) d' e after
            (λ j. lent_none (record handle { v4lbuf = 0 }) j put ∙ sym (none_lent j)),
      )
      go d' (answered i) asked after =
          let there : 1 ≤ among 0 handle.nbuffers i =
            omega (arith, after i, own.counted i, none_lent i, one_self i) in
          let known = among_lem handle.nbuffers i there in
          let b = get_or handle.buffers i (record { start = 0; length = 0 }) in
          let is_b : get_elem? handle.buffers i ≡ some b =
            get_elem?-eq-get_or handle.buffers i (record { start = 0; length = 0 })
              (omega (arith, own.mapped, known.0)) in
          (
            record handle {
              v4lbuf = i;
              v4lbuf_put = false;
              image_counter = (handle.image_counter + 1) % 2 ^ 32;
            },
            d',
            got b.start handle.image_size,
            rw (asked, lt→ltb i handle.nbuffers known.0, is_b) refl,
            record {
              counted = λ j. omega (arith, after j, own.counted j, none_lent j);
              mapped = own.mapped;
              some_buffers = own.some_buffers;
            },
            (
              b,
              is_b,
              refl,
              refl,
              omega (arith, after i, own.counted i, none_lent i, one_self i, known.1),
            ),
            λ j. omega (arith, after j, none_lent j),
          )

  -- While no buffer is in two places, and fewer than `tries` requests in a row are interrupted,
  -- `capture_get_data` returns: it finds the number of the buffer in range and leaves no buffer in two
  -- places. Unless it returns -1, each buffer that was with the driver or the client still is with
  -- one of both; where it does, none is there that was not. A buffer that it gives is mapped and not
  -- with the driver.
  pub capture_get_data-Owned :
      (handle : CapHandle) (d : D)
      → Owned handle d
      → (h' : CapHandle) × (d' : D) × (g : Got) × (capture_get_data device tries handle d
          ≡ ok (h', d', g))
        × Owned h' d'
        × Given h' d' g
        × Kept handle d h' d' g
  unfolding capture_get_data
  capture_get_data-Owned handle d own =
      let own' : Owned handle (device.select d).0 = record {
        counted = λ j. omega (arith, law.select_keeps d j, own.counted j);
        mapped = own.mapped;
        some_buffers = own.some_buffers;
      } in
      go own' (put_back-Owned handle (device.select d).0 own') (device.select d).1 refl
    where
      Goal : Type 0
      Goal =
          (h' : CapHandle) × (d' : D) × (g : Got) × (capture_get_data device tries handle d
            ≡ ok (h', d', g))
          × Owned h' d'
          × Given h' d' g
          × Kept handle d h' d' g

      fetched :
          (device.select d).1 ≡ readable
          → (h' : CapHandle) (d' : D) (done : Bool)
          → put_back device tries handle (device.select d).0 ≡ ok (h', d', done)
          → Owned h' d'
          → Back h' done
          → Same handle (device.select d).0 h' d'
          → Goal
      fetched ready h' d' true e own' back same =
          let f = fetch-Owned h' d' own' back in
          (
            f.0,
            f.1,
            f.2,
            rw (ready, e, capture_get_data) f.3,
            f.4,
            f.5,
            Kept-same handle h' f.0 d d' f.1 f.2 (λ j. omega (arith, same j, law.select_keeps d j))
                f.6,
          )
      fetched ready h' d' false e own' back same = (
        h',
        d',
        failed,
        rw (ready, e, capture_get_data) refl,
        own',
        tt,
        λ j. omega (arith, same j, law.select_keeps d j),
      )

      go :
          Owned handle (device.select d).0
          → (h' : CapHandle) × (d' : D) × (done : Bool) × (put_back device tries handle
                (device.select d).0
              ≡ ok (h', d', done))
            × Owned h' d'
            × Back h' done
            × Same handle (device.select d).0 h' d'
          → (r : Ready) → (device.select d).1 ≡ r
          → Goal
      go own' p readable e = fetched e p.0 p.1 p.2 p.3 p.4 p.5 p.6
      go own' p select_failed e = (
        handle,
        (device.select d).0,
        failed,
        rw (e, capture_get_data) refl,
        own',
        tt,
        λ j. omega (arith, law.select_keeps d j),
      )
      go own' p timeout e = (
        handle,
        (device.select d).0,
        failed,
        rw (e, capture_get_data) refl,
        own',
        tt,
        λ j. omega (arith, law.select_keeps d j),
      )
