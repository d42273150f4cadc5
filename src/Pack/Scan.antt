-- ===== src/Pack/Scan.antt =====
-- `get_next_nalu` of src/rtp_pack.c on a well-formed byte stream: it finds exactly the next unit,
-- and reads nothing behind the input.
use camkit.Base.{
  ℕ, zero, suc, ◌+◌, ◌<◌, ◌≡◌, refl, ap, ◌∙◌, sym, Bool, true, false, not, ◌&&◌, Option, none, some,
  List, [], ◌∷◌, ◌++◌, ok, leb, arith, length, get_elem?, drop, get_elem?-drop, drop-drop,
  length-drop, le→leb, lt→leb-false,
}
use camkit.Pack.Buffer.{matches}
use camkit.Pack.{is_start_code3, is_start_code4, prefix_len, find_next}
use camkit.Pack.Stream.{NalUnit, start_code, code_len, annexb, suspect, is_clean}

matches-drop : (cs mem : List ℕ) (p q : ℕ) → matches cs mem (p + q) ≡ matches cs (drop p mem) q
unfolding matches
matches-drop [] mem p q = refl
matches-drop (c ∷ cs) mem p q =
    let e : p + q + 1 ≡ p + (q + 1) = omega arith in
    let r : get_elem? mem (p + q) ≡ get_elem? (drop p mem) q =
      get_elem?-drop (p + q) mem
      ∙ ap (λ l. get_elem? l 0) (sym (drop-drop q p mem))
      ∙ sym (get_elem?-drop q (drop p mem)) in
    rw (r, e, matches-drop cs mem p (q + 1))

-- A test at `p` sees only what lies from `p` on.
matches_at :
    (cs mem : List ℕ) (p : ℕ) {s : List ℕ} → drop p mem ≡ s → matches cs mem p ≡ matches cs s 0
matches_at cs mem p h =
    let e : p ≡ p + 0 = omega arith in
    ap (matches cs mem) e ∙ matches-drop cs mem p 0 ∙ ap (λ l. matches cs l 0) h

-- No start code is found at a byte that is not suspect.
no_code3 :
    (x : ℕ) (xs rest : List ℕ)
    → not (suspect x xs) && is_clean xs ≡ true
    → matches (0 ∷ 0 ∷ 1 ∷ []) (x ∷ (xs ++ rest)) 0 ≡ ok false
unfolding matches
no_code3 x [] rest h = ground arith
no_code3 x (y ∷ []) rest h = ground arith
no_code3 x (y ∷ z ∷ r) rest h = ground arith

no_code4 :
    (x : ℕ) (xs rest : List ℕ)
    → not (suspect x xs) && is_clean xs ≡ true
    → matches (0 ∷ 0 ∷ 0 ∷ 1 ∷ []) (x ∷ (xs ++ rest)) 0 ≡ ok false
unfolding matches
no_code4 x [] rest h = ground arith
no_code4 x (y ∷ []) rest h = ground arith
no_code4 x (y ∷ z ∷ []) rest h = ground arith
no_code4 x (y ∷ z ∷ w ∷ r) rest h = ground arith

pub drop-suc :
    (mem : List ℕ) (p : ℕ) {x : ℕ} {s : List ℕ} → drop p mem ≡ x ∷ s → drop (p + 1) mem ≡ s
drop-suc mem p h = sym (drop-drop 1 p mem) ∙ ap (λ l. drop 1 l) h

pub length_of_drop :
    (mem : List ℕ) (p x : ℕ) (s : List ℕ) → drop p mem ≡ x ∷ s → length mem ≡ p + 1 + length s
length_of_drop mem p x s h =
    let e : length (drop p mem) ≡ suc (length s) = ap length h in omega (arith, length-drop p mem)

prefix_len_at :
    (mem : List ℕ) (p : ℕ) (long : Bool) (rest : List ℕ)
    → drop p mem ≡ start_code long ++ rest
    → prefix_len mem p ≡ ok (some (code_len long))
unfolding prefix_len is_start_code3 is_start_code4 matches
prefix_len_at mem p false rest h = rw (matches_at (0 ∷ 0 ∷ 1 ∷ []) mem p h)
prefix_len_at mem p true rest h =
    rw (matches_at (0 ∷ 0 ∷ 1 ∷ []) mem p h, matches_at (0 ∷ 0 ∷ 0 ∷ 1 ∷ []) mem p h)

-- At the beginning of a unit its start code is recognised.
pub prefix_len-annexb :
    (mem : List ℕ) (p : ℕ) (u : NalUnit) (us : List NalUnit)
    → drop p mem ≡ annexb (u ∷ us)
    → prefix_len mem p ≡ ok (some (code_len u.long_code))
prefix_len-annexb mem p u us h =
    prefix_len_at mem p u.long_code (u.header ∷ (u.body ++ annexb us)) h

-- `next_nalu_ptr` when the next unit, if there is one, begins at `q`.
abbrev pub next_at : List NalUnit → ℕ → Option ℕ
next_at [] q = none
next_at (u ∷ us) q = some q

find_next_code :
    (mem : List ℕ) (fuel p : ℕ) (long : Bool) (rest : List ℕ)
    → leb (length mem) (p + 1) ≡ false
    → drop (p + 1) mem ≡ start_code long ++ rest
    → find_next mem (length mem) (suc fuel) p ≡ ok (some (p + 1), p + 1)
unfolding find_next is_start_code3 is_start_code4 matches
find_next_code mem fuel p false rest l h = rw (l, matches_at (0 ∷ 0 ∷ 1 ∷ []) mem (p + 1) h)
find_next_code mem fuel p true rest l h =
    rw (l, matches_at (0 ∷ 0 ∷ 1 ∷ []) mem (p + 1) h, matches_at (0 ∷ 0 ∷ 0 ∷ 1 ∷ []) mem (p + 1) h)

find_next_skip :
    (mem : List ℕ) (fuel p y : ℕ) (ys rest : List ℕ)
    → leb (length mem) (p + 1) ≡ false
    → drop (p + 1) mem ≡ y ∷ (ys ++ rest)
    → is_clean (y ∷ ys) ≡ true
    → find_next mem (length mem) (suc fuel) p ≡ find_next mem (length mem) fuel (p + 1)
unfolding find_next is_start_code3 is_start_code4
find_next_skip mem fuel p y ys rest l h c = rw (
  l,
  matches_at (0 ∷ 0 ∷ 1 ∷ []) mem (p + 1) h,
  no_code3 y ys rest c,
  matches_at (0 ∷ 0 ∷ 0 ∷ 1 ∷ []) mem (p + 1) h,
  no_code4 y ys rest c,
)

find_next_end :
    (mem : List ℕ) (fuel p : ℕ)
    → leb (length mem) (p + 1) ≡ true
    → find_next mem (length mem) (suc fuel) p ≡ ok (none, p + 1)
unfolding find_next
find_next_end mem fuel p l = rw l

clean_tail : (y : ℕ) (ys : List ℕ) → is_clean (y ∷ ys) ≡ true → is_clean ys ≡ true
clean_tail y ys c = ground arith

length-start_code : (long : Bool) (rest : List ℕ) → 0 < length (start_code long ++ rest)
length-start_code false rest = omega arith
length-start_code true rest = omega arith

more_follows :
    (mem : List ℕ) (p x : ℕ) (u : NalUnit) (us : List NalUnit)
    → drop p mem ≡ x ∷ annexb (u ∷ us)
    → p + 1 < length mem
more_follows mem p x u us h = omega (
  arith,
  length_of_drop mem p x (annexb (u ∷ us)) h,
  length-start_code u.long_code (u.header ∷ (u.body ++ annexb us)),
)

-- From the header of a unit, at `p`, the loop stops exactly behind the unit.
pub find_next-annexb :
    (mem : List ℕ) (us : List NalUnit) (xs : List ℕ) (x p q fuel : ℕ)
    → drop p mem ≡ x ∷ (xs ++ annexb us)
    → is_clean xs ≡ true
    → q ≡ p + 1 + length xs
    → length xs < fuel
    → find_next mem (length mem) fuel p ≡ ok (next_at us q, q)
find_next-annexb mem us xs x p q zero h c e f = absurd (omega arith)
find_next-annexb mem [] [] x p q (suc fuel) h c e f =
    let n : length mem ≡ p + 1 + 0 = length_of_drop mem p x [] h in
    let e' : q ≡ p + 1 = omega arith in
    rw e' (find_next_end mem fuel p (le→leb (length mem) (p + 1) (omega arith)))
find_next-annexb mem (u ∷ us) [] x p q (suc fuel) h c e f =
    let e' : q ≡ p + 1 = omega arith in
    rw e' (
      find_next_code mem fuel p u.long_code (u.header ∷ (u.body ++ annexb us))
        (lt→leb-false (length mem) (p + 1) (more_follows mem p x u us h)) (drop-suc mem p h))
find_next-annexb mem us (y ∷ ys) x p q (suc fuel) h c e f =
    let n : length mem ≡ p + 1 + length (y ∷ (ys ++ annexb us)) =
      length_of_drop mem p x (y ∷ (ys ++ annexb us)) h in
    let l : leb (length mem) (p + 1) ≡ false = lt→leb-false (length mem) (p + 1) (omega arith) in
    find_next_skip mem fuel p y ys (annexb us) l (drop-suc mem p h) c
    ∙ find_next-annexb mem us ys y (p + 1) q fuel (drop-suc mem p h) (clean_tail y ys c)
        (omega arith) (omega arith)
