-- ===== src/Ipu/Open.antt =====
-- `convert_open` and `convert_close` of src/ipu_convert.c.
use camkit.Base.{ℕ, Bool, not, Option, none, some, [], ◌==◌, if◌then◌else◌}
use camkit.Base.Resources.{Run, acquire, hold, release, result, ◌>>=◌, ◌>>◌}
use camkit.Convert.{CvtParam}
use camkit.Ipu.{IpuFormat, Pointer, null, map_failed, mapped, CvtHandle, size_of}

pub data Resource : Type 0 where
  handle_memory device_fd in_memory in_mapping out_memory out_mapping : Resource

unfoldable pub Resource-discrete : Discrete Resource
Resource-discrete = hlevel

-- The answers: the descriptor, the addresses that `IPU_ALLOC` gives, and what `mmap` gives.
pub record Answers : Type 0 where
  pub malloc_handle : Bool
  pub open_device : Option ℕ
  pub alloc_in : Option ℕ
  pub mmap_in : Pointer
  pub alloc_out : Option ℕ
  pub mmap_out : Pointer

-- `if (p) munmap(p, ...)`
unfoldable pub unmap : Pointer → Resource → Run Resource (Unit {0})
unmap null resource = result tt
unmap map_failed resource = release resource
unmap mapped resource = release resource

-- A call of `mmap`.
unfoldable pub map_memory : Pointer → Resource → Run Resource (Unit {0})
map_memory null resource = result tt
map_memory map_failed resource = result tt
map_memory mapped resource = hold resource

-- The statements at the label `err`, and of `convert_close`.
unfoldable pub convert_close : CvtHandle → Run Resource (Unit {0})
unfolding unmap
convert_close handle = do
  unmap handle.ipu_inbuf in_mapping
  unmap handle.ipu_outbuf out_mapping
  if handle.out_paddr == 0 then result tt else release out_memory
  if handle.in_paddr == 0 then result tt else release in_memory
  elim handle.fd [
    | none ↦ release device_fd
    | some fd ↦ if fd == 0 then result tt else release device_fd
  ]
  release handle_memory

abbrev err : CvtHandle → Run Resource (Option CvtHandle)
err handle = convert_close handle >> result none

module _ (format : ℕ → IpuFormat) where
  -- The handle after the descriptor was asked for.
  abbrev pub at_open : CvtParam → Option ℕ → CvtHandle
  at_open param fd = record {
    fd = fd;
    in_paddr = 0;
    out_paddr = 0;
    ipu_inbuf = null;
    ipu_outbuf = null;
    in_bytes = [];
    ipu_insize = 0;
    ipu_outsize = 0;
    params = param;
  }

  abbrev pub in_size : CvtParam → ℕ
  in_size param = size_of (format param.inpixfmt) param.inwidth param.inheight

  abbrev pub out_size : CvtParam → ℕ
  out_size param = size_of (format param.outpixfmt) param.outwidth param.outheight

  -- The second half, for the output. The result of `mmap` is not looked at.
  unfoldable pub open_output : Answers → CvtParam → CvtHandle → Run Resource (Option CvtHandle)
  unfolding convert_close map_memory size_of
  open_output a param handle =
      let sized = record handle { ipu_outsize = out_size param; out_paddr = out_size param } in
      elim a.alloc_out [
        | none ↦ err sized
        | some paddr ↦ (do
          hold out_memory
          map_memory a.mmap_out out_mapping
          result (some (record sized { out_paddr = paddr; ipu_outbuf = a.mmap_out })))
      ]

  unfoldable pub open_input : Answers → CvtParam → CvtHandle → Run Resource (Option CvtHandle)
  unfolding open_output
  open_input a param handle =
      let sized = record handle { ipu_insize = in_size param; in_paddr = in_size param } in
      elim a.alloc_in [
        | none ↦ err sized
        | some paddr ↦ (do
          hold in_memory
          map_memory a.mmap_in in_mapping
          elim a.mmap_in [
            | null ↦ err (record sized { in_paddr = paddr })
            | map_failed ↦
                open_output a param (record sized { in_paddr = paddr; ipu_inbuf = map_failed })
            | mapped ↦ open_output a param (record sized { in_paddr = paddr; ipu_inbuf = mapped })
          ])
      ]

  unfoldable pub convert_open : Answers → CvtParam → Run Resource (Option CvtHandle)
  unfolding open_input
  convert_open a param = do
    handle ← acquire handle_memory a.malloc_handle
    if not handle then result none else elim a.open_device [
      | none ↦ err (at_open param none)
      | some fd ↦ hold device_fd >> open_input a param (at_open param (some fd))
    ]
