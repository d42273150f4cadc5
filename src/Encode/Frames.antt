-- ===== src/Encode/Frames.antt =====
-- A group of pictures through `encode_get_headers` and `encode_do` of src/vpu_encode.c.
use camkit.Base.{
  ℕ, zero, suc, ◌+◌, ◌%◌, ◌^◌, ◌≤◌, ◌<◌, ◌≡◌, refl, ap, ◌∙◌, sym, Bool, true, false, some, List, [],
  ◌∷◌, ok, ◌==◌, leb, if◌then◌else◌, arith, length, take, replicate, Bool-cases, inl, inr, eq→==,
  le→leb,
}
use camkit.Encode.{
  EncHandle, Vpu, EncOutputInfo, PicType, none_pic, wait_for_vpu, encode_fill_data, encode_do,
  count_frame, picture_type,
}
use camkit.Encode.Client.{encode_frames}
use camkit.Encode.Headers.{at_start, round_of, fetch_headers-round_of}

-- The VPU starts the frame, is not busy any more at one of the polls 0 to 20, and has an output.
pub record Works (vpu : Vpu) : Type 0 where
  pub started : vpu.started ≡ true
  pub poll : ℕ
  pub in_time : poll ≤ 20
  pub idle : vpu.is_busy poll ≡ false
  pub output : EncOutputInfo
  pub info : vpu.info ≡ some output

wait_for_vpu-idle :
    (busy : ℕ → Bool) (fuel loop_id k : ℕ)
    → loop_id + fuel ≡ 21
    → loop_id ≤ k
    → k ≤ 20
    → busy k ≡ false
    → wait_for_vpu busy fuel loop_id ≡ ok true
unfolding wait_for_vpu
wait_for_vpu-idle busy zero loop_id k e le small idle = absurd (omega arith)
wait_for_vpu-idle busy (suc fuel) loop_id k e le small idle = elim (Bool-cases (busy loop_id)) [
  | inl still ↦
      let ne : ¬ (loop_id ≡ k) = λ same. true_false (sym still ∙ ap busy same ∙ idle) in
      let more : (loop_id == 20) ≡ false = ground arith in
      let rest =
        wait_for_vpu-idle busy fuel (loop_id + 1) k (omega arith) (omega arith) small idle in
      rw (still, more) rest
  | inr done ↦ rw done refl
]
  where
    true_false : ◌≡◌ {A = Bool} true false → ⊥
    true_false t = cc

-- The handle after a frame that was encoded.
abbrev pub encoded : EncHandle → List ℕ → EncHandle
encoded handle frame =
    count_frame
      (record handle { frame_memory = take handle.yuv420_imgsize frame; force_i_picture = false })

abbrev pub output_of : EncOutputInfo → PicType × ℕ
output_of info = (picture_type info.pic_type, info.bitstream_size)

encode_do-Works :
    (vpu : Vpu) (handle : EncHandle) (frame : List ℕ) (w : Works vpu)
    → handle.yuv420_imgsize ≡ handle.image_size
    → handle.yuv420_imgsize ≤ length frame
    → encode_do vpu handle frame (length frame)
      ≡ ok (encoded handle frame, some (output_of w.output))
unfolding encode_do encode_fill_data
encode_do-Works vpu handle frame w same room =
    rw
      (
        eq→== handle.yuv420_imgsize handle.image_size same,
        le→leb handle.yuv420_imgsize (length frame) room,
        w.started,
        wait_for_vpu-idle vpu.is_busy 21 0 w.poll refl (omega arith) w.in_time w.idle,
        w.info,
      )
      refl

-- Frames that have the size of a picture, each with a VPU that works.
abbrev pub AllWork : (size : ℕ) → List (Vpu × List ℕ) → Type 0
AllWork size [] = Unit {0}
AllWork size ((vpu, frame) ∷ frames) = Works vpu × (size ≤ length frame) × AllWork size frames

-- `h'` is `h` with `n` more frames encoded, at the end of a group.
record GroupEnd (h h' : EncHandle) (n : ℕ) : Type 0 where
  offset : h'.gop_offset_counter ≡ 0
  frames : h'.frame_counter ≡ (h.frame_counter + n) % 2 ^ 32
  gop : h'.gop ≡ h.gop

abbrev headers_at : EncHandle → List PicType
headers_at h = if h.gop_offset_counter == 0 then round_of h.mvc_extension else []

-- One frame, and then the others.
encode_frames-Works :
    (vpu : Vpu) (frame : List ℕ) (frames : List (Vpu × List ℕ)) (h h' : EncHandle)
    (headers : List (List PicType))
    → Works vpu
    → h.yuv420_imgsize ≡ h.image_size
    → h.yuv420_imgsize ≤ length frame
    → encode_frames frames (encoded h frame) at_start ≡ ok (h', at_start, headers)
    → encode_frames ((vpu, frame) ∷ frames) h at_start ≡ ok (h', at_start, headers_at h ∷ headers)
unfolding encode_frames
encode_frames-Works vpu frame frames h h' headers w same room rest =
    rw (fetch_headers-round_of h none_pic, encode_do-Works vpu h frame w same room, rest) refl

-- Counting `n` more after one.
count_on : (x n total : ℕ) → suc n ≡ total → ((x + 1) % 2 ^ 32 + n) % 2 ^ 32 ≡ (x + total) % 2 ^ 32
count_on x n total e = omega arith

-- From inside a group to its end.
rest_of_group :
    (frames : List (Vpu × List ℕ)) (h : EncHandle)
    → 0 < h.gop_offset_counter
    → 0 < length frames
    → h.gop_offset_counter + length frames ≡ h.gop
    → h.yuv420_imgsize ≡ h.image_size
    → AllWork h.yuv420_imgsize frames
    → (h' : EncHandle) × (encode_frames frames h at_start
        ≡ ok (h', at_start, replicate (length frames) []))
      × GroupEnd h h' (length frames)
unfolding count_frame encode_frames
rest_of_group [] h inside some_left e same all = absurd (omega arith)
rest_of_group ((vpu, frame) ∷ []) h inside some_left e same (w, room, all) =
    let last : leb h.gop (h.gop_offset_counter + 1) ≡ true = le→leb h.gop _ (omega arith) in
    let none_here : (h.gop_offset_counter == 0) ≡ false = ground arith in
    let ran = encode_frames-Works vpu frame [] h (encoded h frame) [] w same room refl in
    (
      encoded h frame,
      ran
          ∙ ap
              (λ b.
                ok (encoded h frame, at_start, (if b then round_of h.mvc_extension else []) ∷ []))
              none_here,
      record { offset = rw last refl; frames = refl; gop = refl },
    )
rest_of_group ((vpu, frame) ∷ next ∷ frames) h inside some_left e same (w, room, all) =
    let on : leb h.gop (h.gop_offset_counter + 1) ≡ false = ground arith in
    let none_here : (h.gop_offset_counter == 0) ≡ false = ground arith in
    let offset : (encoded h frame).gop_offset_counter ≡ h.gop_offset_counter + 1 = rw on refl in
    let (h', rest, end) =
      rest_of_group (next ∷ frames) (encoded h frame) (omega (arith, offset)) (omega arith)
        (omega (arith, offset)) same all in
    let ran =
      encode_frames-Works vpu frame (next ∷ frames) h h' (replicate (length (next ∷ frames)) []) w
        same room rest in
    (
      h',
      ran
          ∙ ap
              (λ b. ok (
                h',
                at_start,
                (if b then round_of h.mvc_extension else [])
                    ∷ replicate (length (next ∷ frames)) [],
              ))
              none_here,
      record {
        offset = end.offset;
        frames =
            end.frames
            ∙ count_on h.frame_counter (length (next ∷ frames))
                (length ((vpu, frame) ∷ next ∷ frames)) refl;
        gop = end.gop;
      },
    )

-- Let a group of pictures begin, with the static variables at the start, and let the frames be as
-- many as `gop` asks for, one at least, each of the size of a picture and with a VPU that works. A
-- client that fetches headers before each frame then encodes them all: it gets one round of headers
-- before the first frame and none before the others, and ends where the next group begins, with the
-- frames counted modulo 2 ^ 32.
pub encode_frames-round_of :
    (vpu : Vpu) (frame : List ℕ) (frames : List (Vpu × List ℕ)) (h : EncHandle)
    → h.gop_offset_counter ≡ 0
    → suc (length frames) ≡ h.gop
    → h.yuv420_imgsize ≡ h.image_size
    → AllWork h.yuv420_imgsize ((vpu, frame) ∷ frames)
    → (h' : EncHandle) × (encode_frames ((vpu, frame) ∷ frames) h at_start
        ≡ ok (h', at_start, round_of h.mvc_extension ∷ replicate (length frames) []))
      × (h'.gop_offset_counter ≡ 0)
      × (h'.frame_counter ≡ (h.frame_counter + h.gop) % 2 ^ 32)
unfolding count_frame encode_frames
encode_frames-round_of vpu frame [] h start e same (w, room, all) =
    let last : leb h.gop (h.gop_offset_counter + 1) ≡ true = le→leb h.gop _ (omega arith) in
    let here : (h.gop_offset_counter == 0) ≡ true = ground arith in
    let one : h.gop ≡ 1 = omega arith in
    let ran = encode_frames-Works vpu frame [] h (encoded h frame) [] w same room refl in
    (
      encoded h frame,
      ran
          ∙ ap
              (λ b.
                ok (encoded h frame, at_start, (if b then round_of h.mvc_extension else []) ∷ []))
              here,
      rw last refl,
      ap (λ n. (h.frame_counter + n) % 2 ^ 32) (sym one),
    )
encode_frames-round_of vpu frame (next ∷ frames) h start e same (w, room, all) =
    let on : leb h.gop (h.gop_offset_counter + 1) ≡ false = ground arith in
    let here : (h.gop_offset_counter == 0) ≡ true = ground arith in
    let offset : (encoded h frame).gop_offset_counter ≡ h.gop_offset_counter + 1 = rw on refl in
    let (h', rest, end) =
      rest_of_group (next ∷ frames) (encoded h frame) (omega (arith, offset)) (omega arith)
        (omega (arith, offset)) same all in
    let ran =
      encode_frames-Works vpu frame (next ∷ frames) h h' (replicate (length (next ∷ frames)) []) w
        same room rest in
    (
      h',
      ran
          ∙ ap
              (λ b. ok (
                h',
                at_start,
                (if b then round_of h.mvc_extension else [])
                    ∷ replicate (length (next ∷ frames)) [],
              ))
              here,
      end.offset,
      end.frames ∙ count_on h.frame_counter (length (next ∷ frames)) h.gop e,
    )
