-- ===== src/Omx/Balance.antt =====
-- What src/omx_encode.c holds after it is opened, and closed where this succeeded.
use camkit.Base.{
  ◌≡◌, refl, Bool, true, false, ◌&&◌, Option, none, some, List, [], ◌∷◌, ok, if◌then◌else◌,
}
use camkit.Base.Resources.{replay, open_close}
use camkit.Ffmpeg.Encode.{EncParam}
use camkit.Omx.{EncHandle}
use camkit.Omx.Open.{
  Resource, Resource-discrete, combination_memory, Answers, configured, open_component, encode_open,
  encode_close,
}

-- What stays behind: the combination buffer, when it was obtained and no handle is returned.
abbrev pub left_allocated : Answers → Option EncHandle → List Resource
left_allocated a (some h) = []
left_allocated a none =
    if a.malloc_handle && a.malloc_combination then combination_memory ∷ [] else []

-- After `encode_open` and, where it gives a handle, `encode_close`, nothing is held and nothing was
-- given back twice, but for one thing: where a call fails after the combination buffer was obtained,
-- that buffer stays allocated.
pub encode_open-encode_close_omx :
    (a : Answers) (param : EncParam)
    → replay Resource-discrete (open_close (encode_open a param) encode_close).0 []
      ≡ ok (left_allocated a (encode_open a param).1)
unfolding encode_open open_component encode_close Resource-discrete replay
encode_open-encode_close_omx a param =
    early a.malloc_handle a.malloc_combination a.ilclient_init a.omx_init a.create_component refl
      refl refl refl refl
  where
    Goal : Type 0
    Goal =
        replay Resource-discrete (open_close (encode_open a param) encode_close).0 []
        ≡ ok (left_allocated a (encode_open a param).1)

    late :
        (set idle input output executing : Bool)
        → a.malloc_handle ≡ true
        → a.malloc_combination ≡ true
        → a.ilclient_init ≡ true
        → a.omx_init ≡ true
        → a.create_component ≡ true
        → configured a ≡ set
        → a.idle ≡ idle
        → a.enable_input ≡ input
        → a.enable_output ≡ output
        → a.executing ≡ executing
        → Goal
    late false b c d e m n l o k s i p q x = rw (m, n, l, o, k, s) refl
    late true false c d e m n l o k s i p q x = rw (m, n, l, o, k, s, i) refl
    late true true false d e m n l o k s i p q x = rw (m, n, l, o, k, s, i, p) refl
    late true true true false e m n l o k s i p q x = rw (m, n, l, o, k, s, i, p, q) refl
    late true true true true false m n l o k s i p q x = rw (m, n, l, o, k, s, i, p, q, x) refl
    late true true true true true m n l o k s i p q x = rw (m, n, l, o, k, s, i, p, q, x) refl

    early :
        (handle combination client omx component : Bool)
        → a.malloc_handle ≡ handle
        → a.malloc_combination ≡ combination
        → a.ilclient_init ≡ client
        → a.omx_init ≡ omx
        → a.create_component ≡ component
        → Goal
    early false b c d e m n l o k = rw m refl
    early true false c d e m n l o k = rw (m, n) refl
    early true true false d e m n l o k = rw (m, n, l) refl
    early true true true false e m n l o k = rw (m, n, l, o) refl
    early true true true true false m n l o k = rw (m, n, l, o, k) refl
    early true true true true true m n l o k =
        late (configured a) a.idle a.enable_input a.enable_output a.executing m n l o k refl refl
          refl refl refl
