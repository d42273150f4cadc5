-- ===== src/Capture/Balance.antt =====
-- What src/v4l_capture.c holds after it is opened, and closed where this succeeded.
use camkit.Base.{
  ℕ, ◌≡◌, refl, ap, ◌∙◌, Bool, true, false, ◌&&◌, Option, none, some, List, [], ◌∷◌, ◌++◌,
  append-nil, ok, length, ltb, if◌then◌else◌,
}
use mathlib.Core.Path.{subst}
use camkit.Base.Resources.{
  ◌>>◌, release, open_close, Run, released, replay, replay-released, replay-after, give_back_self,
}
use camkit.Capture.{CapParam, CapHandle}
use camkit.Capture.Open.{
  configure, Resource, Resource-discrete, handle_memory, device_fd, buffer_array, Answers, map_from,
  unmap_down, unmap_up, init_mmap, init_device, capture_open, capture_close, at_open, uninit_device,
}
use camkit.Capture.Mappings.{stack, replay-unmap_down, replay-unmap_up, replay-map_from}

-- What is held after the device was initialised or not.
abbrev held_after : Option CapHandle → List Resource → List Resource
held_after none held = held
held_after (some h) held = stack 0 h.nbuffers (buffer_array ∷ held)

abbrev IsOn : Option ℕ → Option CapHandle → Type 0
IsOn fd none = Unit
IsOn fd (some h) = h.fd ≡ fd

-- An initialisation that fails leaves nothing behind.
abbrev IsClean : Option ℕ → List Resource → Run Resource (Option CapHandle) → Type 0
IsClean fd held run =
    (replay Resource-discrete run.0 held ≡ ok (held_after run.1 held)) × IsOn fd run.1

-- The failure of the loop of `init_mmap`, after `buffer_array` was obtained.
replay-unwind :
    (a : Answers) (count : ℕ) (held : List Resource)
    → replay Resource-discrete
        ((map_from a 0 count).0
          ++ ((unmap_down (length (map_from a 0 count).1.0)).0 ++ (released buffer_array ∷ [])))
        (buffer_array ∷ held)
      ≡ ok held
unfolding replay
replay-unwind a count held =
    let n = length (map_from a 0 count).1.0 in
    replay-after Resource-discrete (map_from a 0 count).0
      ((unmap_down n).0 ++ (released buffer_array ∷ [])) (buffer_array ∷ held)
      (stack 0 n (buffer_array ∷ held)) (replay-map_from a 0 count (buffer_array ∷ held))
    ∙ replay-after Resource-discrete (unmap_down n).0 (released buffer_array ∷ [])
        (stack 0 n (buffer_array ∷ held)) (buffer_array ∷ held)
        (replay-unmap_down n (buffer_array ∷ held))
    ∙ replay-released Resource-discrete buffer_array [] (buffer_array ∷ held) held
        (give_back_self Resource-discrete buffer_array held)

init_mmap-IsClean :
    (a : Answers) (handle : CapHandle) (held : List Resource)
    → IsClean handle.fd held (init_mmap a handle)
unfolding init_mmap replay
init_mmap-IsClean a handle held = go a.reqbufs refl
  where
    Clean : Type 0
    Clean = IsClean handle.fd held (init_mmap a handle)

    mapped :
        (count : ℕ) (all : Bool)
        → a.reqbufs ≡ some count
        → ltb count 2 ≡ false
        → a.calloc_buffers ≡ true
        → (map_from a 0 count).1.1 ≡ all
        → Clean
    mapped count true e big array all =
        rw (e, big, array, all, append-nil (map_from a 0 count).0)
          (replay-map_from a 0 count (buffer_array ∷ held), refl)
    mapped count false e big array all = rw (e, big, array, all) (replay-unwind a count held, tt)

    allocated :
        (count : ℕ) (big array : Bool)
        → a.reqbufs ≡ some count
        → ltb count 2 ≡ big
        → a.calloc_buffers ≡ array
        → Clean
    allocated count true array e big alloc = rw (e, big) (refl, tt)
    allocated count false false e big alloc = rw (e, big, alloc) (refl, tt)
    allocated count false true e big alloc = mapped count (map_from a 0 count).1.1 e big alloc refl

    go : (r : Option ℕ) → a.reqbufs ≡ r → Clean
    go none e = rw e (refl, tt)
    go (some count) e = allocated count (ltb count 2) a.calloc_buffers e refl refl

init_device-IsClean :
    (a : Answers) (handle : CapHandle) (held : List Resource)
    → IsClean handle.fd held (init_device a handle)
unfolding init_device replay
init_device-IsClean a handle held = go (configure a handle) refl
  where
    go : (o : Option ℕ) → configure a handle ≡ o → IsClean handle.fd held (init_device a handle)
    go none e = rw (e, init_device) (refl, tt)
    go (some size) e =
        rw (e, init_device) (init_mmap-IsClean a (record handle { image_size = size }) held)

-- What stays behind: the descriptor, when the device was opened and no handle is returned.
abbrev pub left_open : Answers → Option CapHandle → List Resource
left_open a (some h) = []
left_open a none =
    if a.malloc_handle
      && (a.stat && (a.is_chr && elim a.open_device [ none ↦ false | some fd ↦ true ]))
    then device_fd ∷ []
    else []

abbrev close_fd : Run Resource (Unit {0})
close_fd = release device_fd >> release handle_memory

replay-uninit_device :
    (h : CapHandle)
    → replay Resource-discrete
        (uninit_device h >> close_fd).0
        (held_after (some h) (device_fd ∷ handle_memory ∷ []))
      ≡ ok []
unfolding replay uninit_device Resource-discrete
replay-uninit_device h =
    let low = device_fd ∷ handle_memory ∷ [] in
    replay-after Resource-discrete (uninit_device h).0 close_fd.0 (held_after (some h) low) low (
      replay-after Resource-discrete (unmap_up 0 h.nbuffers).0 (released buffer_array ∷ [])
        (held_after (some h) low) (buffer_array ∷ low)
        (replay-unmap_up 0 h.nbuffers (buffer_array ∷ low)))

-- After `capture_open` and, where it gives a handle, `capture_close`, nothing is held and nothing
-- was given back twice, but for one thing: where the device was opened and its initialisation
-- failed, the descriptor stays open.
pub capture_open-capture_close :
    (a : Answers) (param : CapParam)
    → replay Resource-discrete (open_close (capture_open a param) capture_close).0 []
      ≡ ok (left_open a (capture_open a param).1)
unfolding capture_open replay Resource-discrete capture_close uninit_device
capture_open-capture_close a param =
    allocated a.malloc_handle a.stat a.is_chr a.open_device refl refl refl refl
  where
    Goal : Type 0
    Goal =
        replay Resource-discrete (open_close (capture_open a param) capture_close).0 []
        ≡ ok (left_open a (capture_open a param).1)

    initialised :
        (fd : ℕ) (o : Option CapHandle)
        → a.malloc_handle ≡ true
        → a.stat ≡ true
        → a.is_chr ≡ true
        → a.open_device ≡ some fd
        → (init_device a (at_open param fd)).1 ≡ o
        → Goal
    initialised fd none m s c d e =
        let clean = init_device-IsClean a (at_open param fd) (device_fd ∷ handle_memory ∷ []) in
        let events = (init_device a (at_open param fd)).0 in
        rw (m, s, c, d, e, append-nil (events ++ (released handle_memory ∷ [])))
          (replay-after Resource-discrete events (released handle_memory ∷ [])
            (device_fd ∷ handle_memory ∷ []) (device_fd ∷ handle_memory ∷ []) (clean.0 ∙ rw e refl))
    initialised fd (some h) m s c d e =
        let clean = init_device-IsClean a (at_open param fd) (device_fd ∷ handle_memory ∷ []) in
        let events = (init_device a (at_open param fd)).0 in
        let on : h.fd ≡ some fd = subst (IsOn (some fd)) e clean.1 in
        rw (m, s, c, d, e, on, append-nil events)
          (replay-after Resource-discrete events (uninit_device h >> close_fd).0
              (device_fd ∷ handle_memory ∷ [])
              (held_after (some h) (device_fd ∷ handle_memory ∷ []))
              (clean.0 ∙ ap (λ o. ok (held_after o (device_fd ∷ handle_memory ∷ []))) e)
            ∙ replay-uninit_device h)

    allocated :
        (malloc stat chr : Bool) (descriptor : Option ℕ)
        → a.malloc_handle ≡ malloc
        → a.stat ≡ stat
        → a.is_chr ≡ chr
        → a.open_device ≡ descriptor
        → Goal
    allocated false stat chr descriptor m s c d = rw m refl
    allocated true false chr descriptor m s c d = rw (m, s) refl
    allocated true true false descriptor m s c d = rw (m, s, c) refl
    allocated true true true none m s c d = rw (m, s, c, d) refl
    allocated true true true (some fd) m s c d =
        initialised fd (init_device a (at_open param fd)).1 m s c d refl
