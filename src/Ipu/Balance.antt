-- ===== src/Ipu/Balance.antt =====
-- What src/ipu_convert.c gives back.
use camkit.Base.{
  ℕ, ◌≡◌, refl, ap, ◌≢◌, Bool, true, false, Option, none, some, List, [], ◌∷◌, ◌++◌, ok, fault,
  ◌==◌, if◌then◌else◌, ne→==-false,
}
use camkit.Base.Resources.{replay, open_close}
use camkit.Convert.{CvtParam}
use camkit.Ipu.{IpuFormat, Pointer, null, map_failed, mapped, CvtHandle}
use camkit.Ipu.Open.{
  Resource, in_memory, out_memory, device_fd, Resource-discrete, Answers, unmap, map_memory,
  open_output, open_input, convert_open, convert_close, in_size, out_size,
}

abbrev pub is_some : Option CvtHandle → Bool
is_some none = false
is_some (some handle) = true

-- All calls succeed.
pub record Succeeds (a : Answers) : Type 0 where
  pub malloc_handle : a.malloc_handle ≡ true
  pub fd : ℕ
  pub open_device : a.open_device ≡ some fd
  pub in_paddr : ℕ
  pub alloc_in : a.alloc_in ≡ some in_paddr
  pub mmap_in : a.mmap_in ≡ mapped
  pub out_paddr : ℕ
  pub alloc_out : a.alloc_out ≡ some out_paddr
  pub mmap_out : a.mmap_out ≡ mapped

-- What is taken for nothing: a descriptor or a physical address that is 0.
abbrev pub left_zero : (out_zero in_zero fd_zero : Bool) → List Resource
left_zero out_zero in_zero fd_zero =
    (if out_zero then out_memory ∷ [] else [])
    ++ ((if in_zero then in_memory ∷ [] else []) ++ (if fd_zero then device_fd ∷ [] else []))

-- When all calls succeed, `convert_open` gives a handle, and `convert_close` gives back all that was
-- taken, but for the descriptor if it is 0, and the memory whose physical address is 0.
pub convert_open-convert_close_ipu :
    (format : ℕ → IpuFormat) (a : Answers) (param : CvtParam)
    → (s : Succeeds a)
    → (is_some (convert_open format a param).1 ≡ true)
      × (replay Resource-discrete (open_close (convert_open format a param) convert_close).0 []
          ≡ ok (left_zero (s.out_paddr == 0) (s.in_paddr == 0) (s.fd == 0)))
unfolding convert_open open_input open_output convert_close unmap map_memory Resource-discrete
    replay
convert_open-convert_close_ipu format a param s = (
  rw (s.malloc_handle, s.open_device, s.alloc_in, s.mmap_in, s.alloc_out) refl,
  go (s.out_paddr == 0) (s.in_paddr == 0) (s.fd == 0) refl refl refl,
)
  where
    go :
        (o i f : Bool)
        → (s.out_paddr == 0) ≡ o
        → (s.in_paddr == 0) ≡ i
        → (s.fd == 0) ≡ f
        → replay Resource-discrete (open_close (convert_open format a param) convert_close).0 []
          ≡ ok (left_zero (s.out_paddr == 0) (s.in_paddr == 0) (s.fd == 0))
    go true true true eo ei ef =
        rw
          (
            s.malloc_handle, s.open_device, s.alloc_in, s.mmap_in, s.alloc_out, s.mmap_out, eo, ei,
            ef,
          )
          refl
    go true true false eo ei ef =
        rw
          (
            s.malloc_handle, s.open_device, s.alloc_in, s.mmap_in, s.alloc_out, s.mmap_out, eo, ei,
            ef,
          )
          refl
    go true false true eo ei ef =
        rw
          (
            s.malloc_handle, s.open_device, s.alloc_in, s.mmap_in, s.alloc_out, s.mmap_out, eo, ei,
            ef,
          )
          refl
    go true false false eo ei ef =
        rw
          (
            s.malloc_handle, s.open_device, s.alloc_in, s.mmap_in, s.alloc_out, s.mmap_out, eo, ei,
            ef,
          )
          refl
    go false true true eo ei ef =
        rw
          (
            s.malloc_handle, s.open_device, s.alloc_in, s.mmap_in, s.alloc_out, s.mmap_out, eo, ei,
            ef,
          )
          refl
    go false true false eo ei ef =
        rw
          (
            s.malloc_handle, s.open_device, s.alloc_in, s.mmap_in, s.alloc_out, s.mmap_out, eo, ei,
            ef,
          )
          refl
    go false false true eo ei ef =
        rw
          (
            s.malloc_handle, s.open_device, s.alloc_in, s.mmap_in, s.alloc_out, s.mmap_out, eo, ei,
            ef,
          )
          refl
    go false false false eo ei ef =
        rw
          (
            s.malloc_handle, s.open_device, s.alloc_in, s.mmap_in, s.alloc_out, s.mmap_out, eo, ei,
            ef,
          )
          refl

-- Where `convert_open` fails after `malloc`, with pictures that are not empty and no null pointer
-- from `mmap`, it gives back something that it does not hold: it closes -1, or frees memory that
-- `IPU_ALLOC` did not give.
pub convert_open-fault :
    (format : ℕ → IpuFormat) (a : Answers) (param : CvtParam)
    → a.malloc_handle ≡ true
    → a.mmap_in ≢ null
    → in_size format param ≢ 0
    → out_size format param ≢ 0
    → (convert_open format a param).1 ≡ none
    → replay Resource-discrete (convert_open format a param).0 [] ≡ fault
unfolding convert_open open_input open_output convert_close unmap map_memory Resource-discrete
    replay
convert_open-fault format a param m not_null some_in some_out failed =
    go a.open_device a.alloc_in a.mmap_in a.alloc_out refl refl refl refl
  where
    Goal : Type 0
    Goal = replay Resource-discrete (convert_open format a param).0 [] ≡ fault

    given : ¬ (is_some (convert_open format a param).1 ≡ true)
    given t = let f = ap is_some failed in cc

    go :
        (fd alloc_in : Option ℕ) (mmap_in : Pointer) (alloc_out : Option ℕ)
        → a.open_device ≡ fd
        → a.alloc_in ≡ alloc_in
        → a.mmap_in ≡ mmap_in
        → a.alloc_out ≡ alloc_out
        → Goal
    go none i p o d ei ep eo = rw (m, d) refl
    go (some fd) none p o d ei ep eo =
        rw (m, d, ei, ne→==-false (in_size format param) 0 some_in) refl
    go (some fd) (some x) null o d ei ep eo = absurd (not_null ep)
    go (some fd) (some x) map_failed none d ei ep eo = rw (m, d, ei, ep, eo) refl
    go (some fd) (some x) mapped none d ei ep eo =
        rw (m, d, ei, ep, eo, ne→==-false (out_size format param) 0 some_out) refl
    go (some fd) (some x) map_failed (some y) d ei ep eo =
        absurd (given (rw (m, d, ei, ep, eo) refl))
    go (some fd) (some x) mapped (some y) d ei ep eo = absurd (given (rw (m, d, ei, ep, eo) refl))
