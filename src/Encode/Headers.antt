-- ===== src/Encode/Headers.antt =====
-- The headers of the stream, by `encode_get_headers` of src/vpu_encode.c.
use camkit.Base.{◌≡◌, refl, Bool, true, false, List, [], ◌∷◌, ok, ◌==◌, if◌then◌else◌}
use camkit.Encode.{EncHandle, Stages, PicType, sps, pps, encode_get_headers, next_header}
use camkit.Encode.Client.{fetch_all, fetch_headers}

-- The static variables before and after a round of headers.
abbrev pub at_start : Stages
at_start = record { next_stage = 0; stage_end = false }

abbrev pub round_of : (mvc_extension : Bool) → List PicType
round_of false = sps ∷ pps ∷ []
round_of true = sps ∷ sps ∷ pps ∷ pps ∷ []

fetch_all-next_header :
    (at_group mvc_extension : Bool) (type : PicType)
    → fetch_all (next_header at_group mvc_extension) 5 at_start type
      ≡ ok (at_start, if at_group then round_of mvc_extension else [])
unfolding fetch_all next_header
fetch_all-next_header true true type = refl
fetch_all-next_header true false type = refl
fetch_all-next_header false mvc_extension type = refl

-- Whatever the handle, and whatever type the client begins with, fetching headers from the start
-- ends after at most five calls and leaves the static variables at the start. Where a group of
-- pictures begins it gives the SPS and the PPS, each twice with the MVC extension, and elsewhere
-- nothing.
pub fetch_headers-round_of :
    (handle : EncHandle) (type : PicType)
    → fetch_headers handle 5 at_start type
      ≡ ok (at_start, if handle.gop_offset_counter == 0 then round_of handle.mvc_extension else [])
unfolding fetch_headers encode_get_headers
fetch_headers-round_of handle type =
    fetch_all-next_header (handle.gop_offset_counter == 0) handle.mvc_extension type
