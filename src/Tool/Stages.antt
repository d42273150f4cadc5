-- ===== src/Tool/Stages.antt =====
-- What `main` of src/cktool.c opens before its loop and closes after it.
use camkit.Base.{ℕ, Bool, true, false, not, Option, none, some, List, if◌then◌else◌}
use camkit.Base.Resources.{Run, acquire, release, result, open_close, ◌>>=◌, ◌>>◌}
use camkit.Network.{NetParam}
use camkit.Tool.Frame.{has_bit}

pub data Resource : Type 0 where
  outfd caphandle cvthandle enchandle pachandle nethandle tmshandle : Resource

unfoldable pub Resource-discrete : Discrete Resource
Resource-discrete = hlevel

-- Whether the file and each part opens.
pub record Answers : Type 0 where
  pub fopen : Bool
  pub capture_open : Bool
  pub convert_open : Bool
  pub encode_open : Bool
  pub pack_open : Bool
  pub net_open : Bool
  pub timestamp_open : Bool

-- `if ((stage & bit) != 0)` around an opening: whether `main` goes on.
unfoldable pub open_if : (bit : Bool) → Resource → Bool → Run Resource Bool
open_if true resource opens = acquire resource opens
open_if false resource opens = result true

-- The server has an address and a port.
abbrev pub has_server : NetParam → Bool
has_server netp = elim netp.serip [
  | none ↦ false
  | some ip ↦ elim netp.serport [ none ↦ false | some port ↦ true ]
]

unfoldable pub open_network : (bit : Bool) → NetParam → Bool → Run Resource Bool
open_network false netp opens = result true
open_network true netp opens = if has_server netp then acquire nethandle opens else result false

-- `if (outfile) outfd = fopen(...)`: whether `outfd` is not NULL.
unfoldable pub open_file : Option (List ℕ) → Bool → Run Resource Bool
open_file none opens = result false
open_file (some name) opens = acquire outfd opens

-- From the capture to the network: whether `main` goes on.
unfoldable pub open_parts : Answers → NetParam → (stage : ℕ) → Run Resource Bool
unfolding open_if open_network has_bit
open_parts a netp stage = do
  captures ← acquire caphandle a.capture_open
  if not captures then result false else (do
    converts ← open_if (has_bit stage 1) cvthandle a.convert_open
    if not converts then result false else (do
      encodes ← open_if (has_bit stage 2) enchandle a.encode_open
      if not encodes then result false else (do
        packs ← open_if (has_bit stage 4) pachandle a.pack_open
        if not packs then result false else open_network (has_bit stage 8) netp a.net_open)))

-- Whether `outfd` and `tmshandle` are not NULL; neither is looked at before the loop.
pub record Opened : Type 0 where
  pub has_file : Bool
  pub has_timestamp : Bool

-- `none` is a return before the loop.
unfoldable pub open_stages :
    Answers → (outfile : Option (List ℕ)) → NetParam → (stage : ℕ) → Run Resource (Option Opened)
unfolding open_file open_parts
open_stages a outfile netp stage = do
  file ← open_file outfile a.fopen
  ready ← open_parts a netp stage
  if not ready then result none else (do
    timestamp ← acquire tmshandle a.timestamp_open
    result (some (record { has_file = file; has_timestamp = timestamp })))

unfoldable pub close_if : (bit : Bool) → Resource → Run Resource (Unit {0})
close_if true resource = release resource
close_if false resource = result tt

-- `timestamp_close` frees the handle, which may be NULL.
unfoldable pub close_stages : (stage : ℕ) → Opened → Run Resource (Unit {0})
unfolding close_if has_bit
close_stages stage opened = do
  close_if (has_bit stage 8) nethandle
  close_if (has_bit stage 4) pachandle
  close_if (has_bit stage 2) enchandle
  close_if (has_bit stage 1) cvthandle
  release caphandle
  close_if opened.has_timestamp tmshandle
  close_if opened.has_file outfd

-- The tool before and after its loop.
abbrev pub open_and_close :
    Answers → Option (List ℕ) → NetParam → (stage : ℕ) → Run Resource (Unit {0})
open_and_close a outfile netp stage =
    open_close (open_stages a outfile netp stage) (close_stages stage)
