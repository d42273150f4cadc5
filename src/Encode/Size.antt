-- ===== src/Encode/Size.antt =====
-- Which pictures the encoder of src/vpu_encode.c takes once it is open: `encode_fill_data` compares the
-- size of a picture with the size of the source's frame buffer, whose height is rounded up.
use camkit.Base.{
  ℕ, suc, ◌+◌, ◌*◌, ◌/◌, ◌%◌, ◌≤◌, ◌<◌, ◌≡◌, ◌≢◌, refl, sym, ap, ◌∙◌, Bool, true, false, none, some,
  List, ok, fault, aborted, leb, ◌^◌, ◌==◌, ltb, if◌then◌else◌, arith, length, take, eq→==,
  ne→==-false, le→leb, Bool-cases, inl, inr, ==_iff,
}
use camkit.Base.{◌⊎◌}
use native.Mathlib.Nat.{mul-le-mul_left, mul_assoc, mul-suc}
use camkit.Ffmpeg.Encode.{EncParam}
use camkit.Encode.{encode_fill_data}
use camkit.Encode.Memory.{MyFrameBuf, frame_of, align16}
use camkit.Encode.Open.{Prepared, prepared_of, prepare_encode}

-- With w = 16 a, both sizes are 24 times a product.
buffer_size : (a w r : ℕ) → w ≡ 16 * a → w * r + w / 2 * r / 2 * 2 ≡ 24 * (a * r)
buffer_size a w r e =
    let half : w / 2 ≡ 8 * a = omega arith in
    let p : w * r ≡ 16 * (a * r) = ap (λ x. x * r) e ∙ mul_assoc 16 a r in
    let q : w / 2 * r ≡ 8 * (a * r) = ap (λ x. x * r) half ∙ mul_assoc 8 a r in omega arith

picture_size : (a w h : ℕ) → w ≡ 16 * a → w * h * 3 / 2 ≡ 24 * (a * h)
picture_size a w h e =
    let p : w * h ≡ 16 * (a * h) = ap (λ x. x * h) e ∙ mul_assoc 16 a h in omega arith

-- The picture has the size of the buffer exactly if its height is a multiple of 16.
sizes-same :
    (w h : ℕ)
    → w ≡ align16 w
    → h % 16 ≡ 0
    → w * h * 3 / 2 ≡ w * align16 h + w / 2 * align16 h / 2 * 2
sizes-same w h e m =
    let a = (w + 15) / 16 in
    let wide : w ≡ 16 * a = omega arith in
    let high : align16 h ≡ h = omega arith in
    picture_size a w h wide
    ∙ ap (λ r. 24 * (a * r)) (sym high)
    ∙ sym (buffer_size a w (align16 h) wide)

sizes-differ :
    (w h : ℕ)
    → 0 < w
    → w ≡ align16 w
    → h % 16 ≢ 0
    → w * h * 3 / 2 ≢ w * align16 h + w / 2 * align16 h / 2 * 2
sizes-differ w h some_w e m same =
    let a = (w + 15) / 16 in
    let wide : w ≡ 16 * a = omega arith in
    let higher : suc h ≤ align16 h = omega arith in
    let more : a * suc h ≤ a * align16 h = mul-le-mul_left a higher in
    let step : a * suc h ≡ a * h + a = mul-suc a h in
    let p : 24 * (a * h) ≡ 24 * (a * align16 h) =
      sym (picture_size a w h wide) ∙ same ∙ buffer_size a w (align16 h) wide in
    omega arith

-- What a success of `prepare_encode` says.
prepare_encode-inv :
    (param : EncParam) (fs : List MyFrameBuf) (source : MyFrameBuf) (p : Prepared)
    → prepare_encode param (fs, source) ≡ ok (some p)
    → (param.src_picwidth ≡ source.stride_y) × (p ≡ prepared_of param source)
unfolding prepare_encode
prepare_encode-inv param fs source p e =
    go (param.src_picwidth == source.stride_y)
      (leb (2 ^ 31) (param.src_picwidth * param.src_picheight * 3))
      (ltb param.src_picwidth param.enc_picwidth) (ltb param.src_picheight param.enc_picheight) refl
      refl refl refl
  where
    impossible : prepare_encode param (fs, source) ≡ ok none → ⊥
    impossible n = let f : ok none ≡ ok (some p) = sym n ∙ e in cc

    undefined : prepare_encode param (fs, source) ≡ fault → ⊥
    undefined n = let f : fault ≡ ok (some p) = sym n ∙ e in cc

    inj :
        prepare_encode param (fs, source) ≡ ok (some (prepared_of param source))
        → p ≡ prepared_of param source
    inj q = let f : ok (some (prepared_of param source)) ≡ ok (some p) = sym q ∙ e in cc

    go :
        (same big wide high : Bool)
        → (param.src_picwidth == source.stride_y) ≡ same
        → leb (2 ^ 31) (param.src_picwidth * param.src_picheight * 3) ≡ big
        → ltb param.src_picwidth param.enc_picwidth ≡ wide
        → ltb param.src_picheight param.enc_picheight ≡ high
        → (param.src_picwidth ≡ source.stride_y) × (p ≡ prepared_of param source)
    go false b w h es eb ew eh = absurd (impossible (rw (es, prepare_encode) refl))
    go true true w h es eb ew eh = absurd (undefined (rw (es, eb, prepare_encode) refl))
    go true false true h es eb ew eh = absurd (impossible (rw (es, eb, ew, prepare_encode) refl))
    go true false false true es eb ew eh =
        absurd (impossible (rw (es, eb, ew, eh, prepare_encode) refl))
    go true false false false es eb ew eh = (
      (==_iff param.src_picwidth source.stride_y).0 es,
      inj (rw (es, eb, ew, eh, prepare_encode) refl),
    )

-- A handle that `encode_open` prepared, on a source's frame buffer as it allocates it, takes a
-- picture that is not too short if the height is a multiple of 16, and aborts on every picture if it
-- is not.
pub encode_fill_data-prepare_encode :
    (param : EncParam) (fs : List MyFrameBuf) (phy virt : ℕ) (p : Prepared) (buf : List ℕ) (len : ℕ)
    → prepare_encode param
        (fs, frame_of phy virt (align16 param.src_picwidth) (align16 param.src_picheight))
      ≡ ok (some p)
    → 0 < param.src_picwidth
    → p.handle.yuv420_imgsize ≤ len
    → len ≤ length buf
    → encode_fill_data p.handle buf len ≡ (
        if param.src_picheight % 16 == 0
        then ok (record p.handle { frame_memory = take p.handle.yuv420_imgsize buf })
        else aborted)
unfolding encode_fill_data
encode_fill_data-prepare_encode param fs phy virt p buf len e some_w enough there =
    let w = param.src_picwidth in
    let h = param.src_picheight in
    let source = frame_of phy virt (align16 w) (align16 h) in
    let (same, is_p) = prepare_encode-inv param fs source p e in
    let img : p.handle.yuv420_imgsize ≡ w * h * 3 / 2 = ap (λ q. q.handle.yuv420_imgsize) is_p in
    let size : p.handle.image_size ≡ align16 w * align16 h + align16 w / 2 * align16 h / 2 * 2 =
      ap (λ q. q.handle.image_size) is_p in
    let size_w : p.handle.image_size ≡ w * align16 h + w / 2 * align16 h / 2 * 2 =
      size ∙ ap (λ x. x * align16 h + x / 2 * align16 h / 2 * 2) (sym same) in
    go img size_w same (Bool-cases (h % 16 == 0))
  where
    not_zero : param.src_picheight % 16 ≡ 0 → ¬ ((param.src_picheight % 16 == 0) ≡ false)
    not_zero z f = let t = eq→== (param.src_picheight % 16) 0 z in cc

    go :
        p.handle.yuv420_imgsize ≡ param.src_picwidth * param.src_picheight * 3 / 2
        → p.handle.image_size
          ≡ param.src_picwidth * align16 param.src_picheight
            + param.src_picwidth / 2 * align16 param.src_picheight / 2 * 2
        → param.src_picwidth ≡ align16 param.src_picwidth
        → ((param.src_picheight % 16 == 0) ≡ true) ⊎ ((param.src_picheight % 16 == 0) ≡ false)
        → encode_fill_data p.handle buf len ≡ (
            if param.src_picheight % 16 == 0
            then ok (record p.handle { frame_memory = take p.handle.yuv420_imgsize buf })
            else aborted)
    go img size wide (inl m) =
        let equal : p.handle.yuv420_imgsize ≡ p.handle.image_size =
          img
          ∙ sizes-same param.src_picwidth param.src_picheight wide ((==_iff _ _).0 m)
          ∙ sym size in
        simp (
          m,
          eq→== _ _ equal,
          le→leb _ _ enough,
          le→leb p.handle.yuv420_imgsize (length buf) (omega arith),
          encode_fill_data,
        )
    go img size wide (inr m) =
        let differ : ¬ (p.handle.yuv420_imgsize ≡ p.handle.image_size) = λ q.
          sizes-differ param.src_picwidth param.src_picheight some_w wide (λ z. not_zero z m)
            (sym img ∙ q ∙ size) in
        simp (m, ne→==-false _ _ differ, encode_fill_data)
