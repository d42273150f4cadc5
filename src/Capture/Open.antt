-- ===== src/Capture/Open.antt =====
-- `capture_open`, `init_device`, `init_mmap`, `uninit_device` and `capture_close` of
-- src/v4l_capture.c. The calls of `VIDIOC_CROPCAP`, `VIDIOC_S_CROP` and `VIDIOC_S_INPUT` are left
-- out: nothing depends on their answers.
use camkit.Base.{
  ℕ, zero, suc, ◌+◌, Bool, true, false, not, ◌&&◌, Option, none, some, List, [], ◌∷◌, ◌==◌, ltb,
  length, if◌then◌else◌,
}
use camkit.Base.Resources.{Run, acquire, hold, release, result, ◌>>=◌, ◌>>◌}
use native.Mathlib.Decide.{ℕ_discrete}
use camkit.Capture.{CapParam, Buffer, CapHandle}

pub data Resource : Type 0 where
  handle_memory device_fd buffer_array : Resource
  mapping : ℕ → Resource

unfoldable pub Resource-discrete : Discrete Resource
Resource-discrete = hlevel (ℕ_discrete)

-- The capabilities and the picture format that the device reports.
pub record Capability : Type 0 where
  pub video_capture : Bool
  pub streaming : Bool

pub record PixFormat : Type 0 where
  pub width : ℕ
  pub height : ℕ
  pub sizeimage : ℕ

-- The answers to the system calls, `none` and `false` where a call fails.
pub record Answers : Type 0 where
  pub malloc_handle : Bool
  pub stat : Bool
  pub is_chr : Bool
  pub open_device : Option ℕ
  pub querycap : Option Capability
  pub s_fmt : Option PixFormat
  pub s_parm : Bool
  pub reqbufs : Option ℕ
  pub calloc_buffers : Bool
  pub querybuf : ℕ → Option ℕ
  pub mmap : ℕ → Option ℕ

-- The loop of `init_mmap` over the `n` buffers from `i` on: those mapped, and whether all are.
unfoldable pub map_from : Answers → (i n : ℕ) → Run Resource (List Buffer × Bool)
map_from a i zero = result ([], true)
map_from a i (suc n) =
    let rest = map_from a (i + 1) n in
    elim (a.querybuf i) [
      | none ↦ result ([], false)
      | some len ↦ elim (a.mmap i) [
        | none ↦ result ([], false)
        | some address ↦ (do
          hold (mapping i)
          mapped ← rest
          result (record { start = address; length = len } ∷ mapped.0, mapped.1))
      ]
    ]

-- The loop at the label `err` of `init_mmap`, with `nbuffers` buffers mapped.
unfoldable pub unmap_down : (nbuffers : ℕ) → Run Resource (Unit {0})
unmap_down zero = result tt
unmap_down (suc n) = release (mapping n) >> unmap_down n

-- The result is the handle as it is afterwards; `none` stands for -1, after which it is freed.
unfoldable pub init_mmap : Answers → CapHandle → Run Resource (Option CapHandle)
unfolding map_from unmap_down
init_mmap a handle = elim a.reqbufs [
  | none ↦ result none
  | some count ↦ if ltb count 2 then result none else (do
    array ← acquire buffer_array a.calloc_buffers
    if not array then result none else (do
      mapped ← map_from a 0 count
      if mapped.1
          then result (some (record handle { buffers = mapped.0; nbuffers = length mapped.0 }))
          else (do unmap_down (length mapped.0); release buffer_array; result none)))
]

-- The checks and settings of `init_device`, up to the call of `init_mmap`: the `sizeimage` that
-- becomes `image_size`, or `none` for the return of -1.
unfoldable pub configure : Answers → CapHandle → Option ℕ
configure a handle = elim handle.fd [
  | none ↦ none
  | some fd ↦ elim a.querycap [
    | none ↦ none
    | some cap ↦
        if not cap.video_capture then none else if not cap.streaming then none else elim a.s_fmt [
          | none ↦ none
          | some fmt ↦
              if not ((fmt.width == handle.params.width) && (fmt.height == handle.params.height))
              then none
              else if not a.s_parm
              then none
              else some fmt.sizeimage
        ]
  ]
]

unfoldable pub init_device : Answers → CapHandle → Run Resource (Option CapHandle)
unfolding configure init_mmap
init_device a handle = elim (configure a handle) [
  | none ↦ result none
  | some sizeimage ↦ init_mmap a (record handle { image_size = sizeimage })
]

-- The handle before `init_device`.
abbrev pub at_open : CapParam → ℕ → CapHandle
at_open param descriptor = record {
  fd = some descriptor;
  image_size = 0;
  buffers = [];
  nbuffers = 0;
  params = param;
  image_counter = 0;
  v4lbuf = 0;
  v4lbuf_put = true;
}

-- The label `err`.
abbrev err : Run Resource (Option CapHandle)
err = release handle_memory >> result none

unfoldable pub capture_open : Answers → CapParam → Run Resource (Option CapHandle)
unfolding init_device
capture_open a param = do
  handle ← acquire handle_memory a.malloc_handle
  if not handle
      then result none
      else if not a.stat
      then err
      else if not a.is_chr
      then err
      else elim a.open_device [
        | none ↦ err
        | some descriptor ↦ (do
          hold device_fd
          initialised ← init_device a (at_open param descriptor)
          elim initialised [ none ↦ err | some h ↦ result (some h) ])
      ]

-- The loop of `uninit_device` over the `n` buffers from `i` on.
unfoldable pub unmap_up : (i n : ℕ) → Run Resource (Unit {0})
unmap_up i zero = result tt
unmap_up i (suc n) = release (mapping i) >> unmap_up (i + 1) n

unfoldable pub uninit_device : CapHandle → Run Resource (Unit {0})
unfolding unmap_up
uninit_device handle = unmap_up 0 handle.nbuffers >> release buffer_array

unfoldable pub capture_close : CapHandle → Run Resource (Unit {0})
unfolding uninit_device
capture_close handle = uninit_device handle >> elim handle.fd [
  | none ↦ result tt
  | some descriptor ↦ release device_fd >> release handle_memory
]
