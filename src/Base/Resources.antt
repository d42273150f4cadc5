-- ===== src/Base/Resources.antt =====
-- What C code takes and gives back: memory, descriptors, mappings, contexts of a library. A function
-- that opens or closes something is a `Run`: the calls that it makes, in order, and its result.
use camkit.Base.Calls.{Outcome, ok, fault, ◌>>=◌ as ◌then◌}
use mathlib.Core.Path.{◌≡◌, refl, ap, ◌∙◌}
use mathlib.Core.List.{List, [], ◌∷◌, ◌++◌}
use mathlib.Core.Option.{Option, none, some}
use mathlib.Core.Bool.{Bool, true, false}

pub data Event (R : Type 0) : Type 0 where
  acquired released : R → Event R
  -- Something that C leaves undefined.
  undefined : Event R

abbrev pub Run : Type 0 → Type 0 → Type 0
Run R A = List (Event R) × A

infixl 5 ◌>>=◌ ◌>>◌
abbrev pub ◌>>=◌ : {R A B : Type 0} → Run R A → (A → Run R B) → Run R B
m >>= next = (m.0 ++ (next m.1).0, (next m.1).1)

abbrev pub ◌>>◌ : {R B : Type 0} → Run R (Unit {0}) → Run R B → Run R B
m >> next = m >>= λ done. next

abbrev pub result : {R A : Type 0} → A → Run R A
result a = ([], a)

-- A call that takes `r` if it succeeds, and tells whether it did.
abbrev pub acquire : {R : Type 0} → R → Bool → Run R Bool
acquire r true = (acquired r ∷ [], true)
acquire r false = ([], false)

-- A resource that has just been obtained.
abbrev pub hold : {R : Type 0} → R → Run R (Unit {0})
hold r = (acquired r ∷ [], tt)

abbrev pub release : {R : Type 0} → R → Run R (Unit {0})
release r = (released r ∷ [], tt)

-- A call that is undefined, with some result.
abbrev pub undefined_behaviour : {R A : Type 0} → A → Run R A
undefined_behaviour a = (undefined ∷ [], a)

-- A client that opens, and closes what it got.
abbrev pub open_close :
    {R H : Type 0} → Run R (Option H) → (H → Run R (Unit {0})) → Run R (Unit {0})
open_close opened close = opened >>= λ got. elim got [ none ↦ result tt | some h ↦ close h ]

module _ {R : Type 0} (same : Discrete R) where
  -- What is still held when `r` is given back; `none` when it is not held.
  unfoldable pub give_back : R → List R → Option (List R)
  give_back r [] = none
  give_back r (x ∷ xs) = elim (same r x) [
    | yes e ↦ some xs
    | no n ↦ elim (give_back r xs) [ none ↦ none | some ys ↦ some (x ∷ ys) ]
  ]

  -- What is held after the calls. To give back what is not held is undefined.
  unfoldable pub replay : List (Event R) → List R → Outcome (List R)
  unfolding give_back
  replay [] held = ok held
  replay (acquired r ∷ es) held = replay es (r ∷ held)
  replay (undefined ∷ es) held = fault
  replay (released r ∷ es) held = elim (give_back r held) [
    | none ↦ fault
    | some rest ↦ replay es rest
  ]

  pub give_back_self : (r : R) (xs : List R) → give_back r (r ∷ xs) ≡ some xs
  unfolding give_back
  give_back_self r xs = go (same r r)
    where
      go :
          (d : Dec (r ≡ r))
          → ◌≡◌ {A = Option (List R)}
              (elim d [
                | yes e ↦ some xs
                | no n ↦ elim (give_back r xs) [ none ↦ none | some ys ↦ some (r ∷ ys) ]
              ])
              (some xs)
      go (yes e) = refl
      go (no n) = absurd (n refl)

  -- What is held beside it stays.
  pub give_back_ne :
      (r x : R) (xs ys : List R)
      → ¬ (r ≡ x)
      → give_back r xs ≡ some ys
      → give_back r (x ∷ xs) ≡ some (x ∷ ys)
  unfolding give_back
  give_back_ne r x xs ys other e = go (same r x)
    where
      go :
          (d : Dec (r ≡ x))
          → ◌≡◌ {A = Option (List R)}
              (elim d [
                | yes e ↦ some xs
                | no n ↦ elim (give_back r xs) [ none ↦ none | some zs ↦ some (x ∷ zs) ]
              ])
              (some (x ∷ ys))
      go (yes same) = absurd (other same)
      go (no n) = rw e refl

  pub replay-released :
      (r : R) (es : List (Event R)) (held rest : List R)
      → give_back r held ≡ some rest
      → replay (released r ∷ es) held ≡ replay es rest
  unfolding replay
  replay-released r es held rest e = rw (e, replay) refl

  pub replay-append :
      (xs ys : List (Event R)) (held : List R)
      → replay (xs ++ ys) held ≡ (replay xs held then replay ys)
  unfolding replay
  replay-append [] ys held = refl
  replay-append (acquired r ∷ xs) ys held = replay-append xs ys (r ∷ held)
  replay-append (undefined ∷ xs) ys held = refl
  replay-append (released r ∷ xs) ys held = go (replay-append xs ys) (give_back r held)
    where
      go :
          ((rest : List R) → replay (xs ++ ys) rest ≡ (replay xs rest then replay ys))
          → (o : Option (List R))
          → ◌≡◌ {A = Outcome (List R)}
              (elim o [ none ↦ fault | some rest ↦ replay (xs ++ ys) rest ])
              (elim o [ none ↦ fault | some rest ↦ replay xs rest ] then replay ys)
      go ih none = refl
      go ih (some rest) = ih rest

  pub replay-after :
      (xs ys : List (Event R)) (held mid : List R)
      → replay xs held ≡ ok mid
      → replay (xs ++ ys) held ≡ replay ys mid
  replay-after xs ys held mid e = replay-append xs ys held ∙ ap (λ o. o then replay ys) e
