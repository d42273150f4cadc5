-- ===== src/Tool/Frame.antt =====
-- The loop of `main` in src/cktool.c, one frame at a time, over the interfaces of the parts. What is
-- printed is left out.
use Prim.Native.Nat.{bit_and}
use camkit.Base.{
  ℕ, zero, suc, ◌+◌, Bool, true, false, not, Option, none, some, List, [], ◌∷◌, ◌++◌, map, Outcome,
  ok, out_of_fuel, ◌>>=◌, ◌==◌, if◌then◌else◌, length,
}
use camkit.Pack.{Platform, Timeb, PacHandle, pack_put}
use camkit.Pack.Session.{drain}

-- `(stage & bit) != 0`
unfoldable pub has_bit : (stage bit : ℕ) → Bool
has_bit stage bit = not (bit_and stage bit == 0)

-- What `capture_get_data` returns: 0 with a picture, a value above 0, or one below.
pub data Captured : Type 0 where
  picture : List ℕ → Captured
  again failed : Captured

-- What the tool calls of the other parts, whose state together is an `S`. `none` is a result below 0
-- of `convert_do` and `encode_do`, and the result 0 of `encode_get_headers`. A buffer is its bytes.
pub record Parts (S : Type 0) : Type 0 where
  pub capture_get_data : S → Outcome (S × Captured)
  pub convert_do : S → List ℕ → Outcome (S × Option (List ℕ))
  pub timestamp_draw : S → List ℕ → Outcome (List ℕ)
  pub encode_get_headers : S → Outcome (S × Option (List ℕ))
  pub encode_do : S → List ℕ → Outcome (S × Option (List ℕ))

-- What leaves the tool: bytes for the file, or for `net_send`.
pub data Out : Type 0 where
  written sent : List ℕ → Out

pub record State (S : Type 0) : Type 0 where
  pub parts : S
  pub pachandle : PacHandle
  pub tick : ℕ
  pub outs : List Out

-- The variables that the loop only reads. `no_convert` is `capp.pixfmt == V4L2_PIX_FMT_YUV420`.
pub record Setup : Type 0 where
  pub stage : ℕ
  pub outfd : Bool
  pub no_convert : Bool

module _ {S : Type 0} (parts : Parts S) (pf : Platform) (clock : ℕ → Timeb) (setup : Setup) where
  abbrev pub to_file : List ℕ → List Out
  to_file bytes = if setup.outfd then written bytes ∷ [] else []

  abbrev pub to_files : List (List ℕ) → List Out
  to_files [] = []
  to_files (p ∷ ps) = to_file p ++ to_files ps

  -- Where the packets go.
  unfoldable pub put_packets : List (List ℕ) → List Out
  unfolding has_bit
  put_packets packets = if has_bit setup.stage 8 then map sent packets else to_files packets

  -- Headers or a frame, from the encoder on. A stream of `n` bytes takes fewer than `n + 1` calls of
  -- `pack_get`.
  unfoldable pub emit : State S → List ℕ → Outcome (State S)
  unfolding put_packets has_bit
  emit st bytes =
      if not (has_bit setup.stage 4)
      then ok (record st { outs = st.outs ++ to_file bytes })
      else (drain pf clock (suc (length bytes)) st.tick (pack_put st.pachandle bytes (length bytes))
          >>= λ packed. ok (record st {
            pachandle = packed.0;
            tick = st.tick + length packed.1 + 1;
            outs = st.outs ++ put_packets packed.1;
          }))

  -- The loop over the headers.
  unfoldable pub emit_headers : (fuel : ℕ) → State S → Outcome (State S)
  unfolding emit
  emit_headers zero st = out_of_fuel
  emit_headers (suc fuel) st = parts.encode_get_headers st.parts >>= λ fetched. elim fetched.1 [
    | none ↦ ok (record st { parts = fetched.0 })
    | some header ↦ emit (record st { parts = fetched.0 }) header >>= λ st'. emit_headers fuel st'
  ]

  -- A converted picture: the result tells whether the loop goes on.
  unfoldable pub encode_picture : (fuel : ℕ) → State S → List ℕ → Outcome (State S × Bool)
  unfolding emit emit_headers has_bit
  encode_picture fuel st yuv = parts.timestamp_draw st.parts yuv >>= λ drawn.
      if not (has_bit setup.stage 2)
      then ok (record st { outs = st.outs ++ to_file drawn }, true)
      else (emit_headers fuel st >>= λ headed. parts.encode_do headed.parts drawn >>= λ encoded.
          elim encoded.1 [
            | none ↦ ok (record headed { parts = encoded.0 }, false)
            | some frame ↦
                if length frame == 0
                then ok (record headed { parts = encoded.0 }, true)
                else (emit (record headed { parts = encoded.0 }) frame >>= λ done. ok (done, true))
          ])

  unfoldable pub convert_picture : (fuel : ℕ) → State S → List ℕ → Outcome (State S × Bool)
  unfolding encode_picture has_bit
  convert_picture fuel st captured =
      if not (has_bit setup.stage 1)
      then ok (record st { outs = st.outs ++ to_file captured }, true)
      else if setup.no_convert
      then encode_picture fuel st captured
      else (parts.convert_do st.parts captured >>= λ converted. elim converted.1 [
        | none ↦ ok (record st { parts = converted.0 }, false)
        | some yuv ↦
            if length yuv == 0
            then ok (record st { parts = converted.0 }, true)
            else encode_picture fuel (record st { parts = converted.0 }) yuv
      ])

  -- The body of `while (!quit)`.
  unfoldable pub one_frame : (fuel : ℕ) → State S → Outcome (State S × Bool)
  unfolding convert_picture
  one_frame fuel st = parts.capture_get_data st.parts >>= λ got. elim got.1 [
    | failed ↦ ok (record st { parts = got.0 }, false)
    | again ↦ ok (record st { parts = got.0 }, true)
    | picture captured ↦
        if length captured == 0
        then ok (record st { parts = got.0 }, true)
        else convert_picture fuel (record st { parts = got.0 }) captured
  ]

  -- The loop, when `quit` is set in turn number `turns`.
  unfoldable pub main_loop : (fuel turns : ℕ) → State S → Outcome (State S)
  unfolding one_frame
  main_loop fuel zero st = ok st
  main_loop fuel (suc turns) st =
      one_frame fuel st >>= λ r. elim r.1 [ false ↦ ok r.0 | true ↦ main_loop fuel turns r.0 ]
