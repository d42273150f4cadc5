-- ===== src/Ipu/Tests.antt =====
-- The theorems on src/ipu_convert.c with a picture of 4 by 2 pixels.
use camkit.Base.{ℕ, ◌≡◌, refl, ◌≢◌, true, none, some, [], ◌∷◌, ok, fault, arith}
use camkit.Base.Resources.{replay, open_close}
use camkit.Convert.{CvtParam}
use camkit.Ipu.{IpuFormat, yuyv, null, mapped, size_of, fmt2bpp}
use camkit.Ipu.Open.{Answers, device_fd, Resource-discrete, convert_open, convert_close, in_size}
use camkit.Ipu.Balance.{Succeeds, is_some, convert_open-convert_close_ipu, convert_open-fault}

abbrev param : CvtParam
param = record {
  inwidth = 4;
  inheight = 2;
  inpixfmt = 0;
  outwidth = 4;
  outheight = 2;
  outpixfmt = 0;
}

abbrev format : ℕ → IpuFormat
format n = yuyv

abbrev answers : Answers
answers = record {
  malloc_handle = true;
  open_device = some 0;
  alloc_in = some 4096;
  mmap_in = mapped;
  alloc_out = some 8192;
  mmap_out = mapped;
}

abbrev answers-Succeeds : Succeeds answers
answers-Succeeds = record {
  malloc_handle = refl;
  fd = 0;
  open_device = refl;
  in_paddr = 4096;
  alloc_in = refl;
  mmap_in = refl;
  out_paddr = 8192;
  alloc_out = refl;
  mmap_out = refl;
}

-- The descriptor is 0.
convert_open-convert_close_ipu_example :
    (is_some (convert_open format answers param).1 ≡ true)
    × (replay Resource-discrete (open_close (convert_open format answers param) convert_close).0 []
        ≡ ok (device_fd ∷ []))
convert_open-convert_close_ipu_example =
    convert_open-convert_close_ipu format answers param answers-Succeeds

-- `IPU_ALLOC` fails for the input.
abbrev failing : Answers
failing = record answers { alloc_in = none }

mapped_ne : mapped ≢ null
mapped_ne e = cc

sizes : in_size format param ≢ 0
unfolding size_of fmt2bpp
sizes e = omega arith

no_handle : (convert_open format failing param).1 ≡ none
unfolding convert_open
no_handle = refl

convert_open-fault_example :
    replay Resource-discrete (convert_open format failing param).0 [] ≡ fault
convert_open-fault_example =
    convert_open-fault format failing param refl mapped_ne sizes sizes no_handle
