-- ===== src/Omx/Combine.antt =====
-- Which frame `encode_do` of src/omx_encode.c makes of the parts that OpenMAX gives.
use camkit.Base.{
  ℕ, ◌+◌, ◌≤◌, ◌<◌, ◌≡◌, refl, sym, ap, ◌∙◌, Bool, true, false, Option, some, List, [], ◌∷◌, ◌++◌,
  append_assoc, Outcome, ok, fault, >>=-assoc, ◌>>=◌, leb, if◌then◌else◌, arith, length,
  length-append, le→leb, lt→leb-false, ◌%◌, ◌^◌,
}
use native.Mathlib.Decide.{dec_le}
use camkit.Omx.{
  OutBuffer, is_nothing, ends_frame, append_part, combine, take_output, feed, encode_do, Answers,
  EncHandle, Encoded, failed, output, counted, max_size_combination_buffer,
}

-- A part of a frame, or an SPS or a PPS: the next one belongs to it.
abbrev pub IsPart : OutBuffer → Type 0
IsPart out = (is_nothing out ≡ false) × (ends_frame out ≡ false)

abbrev pub AllParts : List OutBuffer → Type 0
AllParts [] = Unit
AllParts (p ∷ ps) = IsPart p × AllParts ps

-- The bytes of buffers, one after the other.
abbrev pub bytes_of : List OutBuffer → List ℕ
bytes_of [] = []
bytes_of (p ∷ ps) = p.filled ++ bytes_of ps

-- The fills that give the parts `ps` and then `last`.
abbrev pub fills_of : List OutBuffer → OutBuffer → List (Option OutBuffer) → List (Option OutBuffer)
fills_of [] last more = some last ∷ more
fills_of (p ∷ ps) last more = some p ∷ fills_of ps last more

abbrev pub bounded : List ℕ → Outcome (List ℕ)
bounded frame = if leb (length frame) max_size_combination_buffer then ok frame else fault

-- The specification: a frame of more than one buffer must fit into the combination buffer.
abbrev pub frame_of : List OutBuffer → OutBuffer → Outcome (List ℕ)
frame_of [] last = ok last.filled
frame_of (p ∷ ps) last = bounded (bytes_of (p ∷ ps) ++ last.filled)

bounded-ok :
    (frame : List ℕ) → length frame ≤ max_size_combination_buffer → bounded frame ≡ ok frame
bounded-ok frame h = rw (le→leb (length frame) max_size_combination_buffer h) refl

bounded-fault :
    (frame : List ℕ) → max_size_combination_buffer < length frame → bounded frame ≡ fault
bounded-fault frame h = rw (lt→leb-false (length frame) max_size_combination_buffer h) refl

append_part-bounded :
    (buffer : List ℕ) (out : OutBuffer) → append_part buffer out ≡ bounded (buffer ++ out.filled)
unfolding append_part
append_part-bounded buffer out = rw (sym (length-append buffer out.filled)) refl

-- To overflow with a part is to overflow with all of them.
bounded-append :
    (buffer part rest : List ℕ) (next : List ℕ → Outcome (List ℕ × Bool))
    → ((f : List ℕ) → next f ≡ (bounded (f ++ rest) >>= λ g. ok (g, true)))
    → (bounded (buffer ++ part) >>= next)
      ≡ (bounded (buffer ++ (part ++ rest)) >>= λ g. ok (g, true))
bounded-append buffer part rest next follows =
    go (dec_le (length (buffer ++ part)) max_size_combination_buffer)
  where
    same : (buffer ++ part) ++ rest ≡ buffer ++ (part ++ rest)
    same = append_assoc buffer part rest

    go :
        Dec (length (buffer ++ part) ≤ max_size_combination_buffer)
        → (bounded (buffer ++ part) >>= next)
          ≡ (bounded (buffer ++ (part ++ rest)) >>= λ g. ok (g, true))
    go (yes fits) =
        ap (λ o. o >>= next) (bounded-ok (buffer ++ part) fits)
        ∙ follows (buffer ++ part)
        ∙ ap (λ f. bounded f >>= λ g. ok (g, true)) same
    go (no over) =
        let long : max_size_combination_buffer < length (buffer ++ part) = omega arith in
        let longer : max_size_combination_buffer < length (buffer ++ (part ++ rest)) =
          omega (arith, length-append (buffer ++ part) rest, ap length same) in
        ap (λ o. o >>= next) (bounded-fault (buffer ++ part) long)
        ∙ sym (ap (λ o. o >>= λ g. ok (g, true)) (bounded-fault (buffer ++ (part ++ rest)) longer))

combine-bounded :
    (ps : List OutBuffer) (last : OutBuffer) (more : List (Option OutBuffer)) (buffer : List ℕ)
    → AllParts ps
    → is_nothing last ≡ false
    → ends_frame last ≡ true
    → combine (fills_of ps last more) buffer
      ≡ (bounded (buffer ++ (bytes_of ps ++ last.filled)) >>= λ f. ok (f, true))
unfolding combine
combine-bounded [] last more buffer parts real ends =
    rw (real, ends, append_part-bounded buffer last) refl
combine-bounded (p ∷ ps) last more buffer parts real ends =
    rw
      (
        parts.0.0,
        parts.0.1,
        append_part-bounded buffer p,
        append_assoc p.filled (bytes_of ps) last.filled,
      )
      (bounded-append buffer p.filled (bytes_of ps ++ last.filled) (combine (fills_of ps last more))
        (λ f. combine-bounded ps last more f parts.1 real ends))

-- What the client sees of a call.
abbrev pub seen : EncHandle × Encoded → Encoded × ℕ
seen r = (r.1, r.0.frame_counter)

-- The end of `take_output`, after the combination.
abbrev deliver : EncHandle → List ℕ × Bool → Outcome (EncHandle × Encoded)
deliver handle c =
    let after = record handle { combination_buffer = c.0 } in
    if c.1 then ok (counted after, output c.0) else ok (after, failed)

combined :
    (handle : EncHandle) (first : Outcome (List ℕ)) (loop : List ℕ → Outcome (List ℕ × Bool))
    (frame : List ℕ)
    → (first >>= loop) ≡ (bounded frame >>= λ g. ok (g, true))
    → ((first >>= λ f. loop f >>= deliver handle) >>= λ r. ok (seen r))
      ≡ (bounded frame >>= λ f. ok (output f, (handle.frame_counter + 1) % 2 ^ 32))
combined handle first loop frame e =
    ap (λ o. o >>= λ r. ok (seen r)) (sym (>>=-assoc first loop (deliver handle)))
    ∙ ap (λ o. (o >>= deliver handle) >>= λ r. ok (seen r)) e
    ∙ ap (λ o. o >>= λ r. ok (seen r))
        (>>=-assoc (bounded frame) (λ g. ok (g, true)) (deliver handle))
    ∙ >>=-assoc (bounded frame) (λ g. deliver handle (g, true)) (λ r. ok (seen r))

-- Once the input is taken, and OpenMAX gives parts and then the end of a frame, `encode_do` gives
-- the bytes of all of them in order, as one frame, and counts it modulo 2 ^ 32. A frame of more than one part that
-- is longer than the combination buffer is written beyond it: this is undefined behaviour.
pub encode_do-frame_of :
    (a : Answers) (handle : EncHandle) (ibuf : List ℕ) (ilen : ℕ) (ps : List OutBuffer)
    (last : OutBuffer) (more : List (Option OutBuffer))
    → feed a ibuf ilen ≡ ok true
    → a.output_buffer ≡ true
    → a.fills ≡ fills_of ps last more
    → AllParts ps
    → is_nothing last ≡ false
    → ends_frame last ≡ true
    → (encode_do a handle ibuf ilen >>= λ r. ok (seen r))
      ≡ (frame_of ps last >>= λ f. ok (output f, (handle.frame_counter + 1) % 2 ^ 32))
unfolding encode_do take_output
encode_do-frame_of a handle ibuf ilen [] last more fed out fills parts real ends =
    rw (fed, out, fills, real, ends) refl
encode_do-frame_of a handle ibuf ilen (p ∷ ps) last more fed out fills parts real ends =
    rw
      (
        fed,
        out,
        fills,
        parts.0.0,
        parts.0.1,
        append_part-bounded [] p,
        append_assoc p.filled (bytes_of ps) last.filled,
      )
      (combined handle (bounded p.filled) (combine (fills_of ps last more))
        (p.filled ++ (bytes_of ps ++ last.filled))
        (bounded-append [] p.filled (bytes_of ps ++ last.filled) (combine (fills_of ps last more))
          (λ f. combine-bounded ps last more f parts.1 real ends)))
