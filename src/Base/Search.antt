-- ===== src/Base/Search.antt =====
-- Searches for the last element of a list that passes a test: `iter().rev().find(..)`.
use mathlib.Core.Path.{◌≡◌, refl, ap}
use mathlib.Core.Logic.{inl, inr}
use mathlib.Core.Bool.{Bool, true, ◌&&◌, not}
use mathlib.Core.Option.{Option, none, some}
use mathlib.Core.List.{List, [], ◌∷◌, ◌++◌, reverse, reverse-append, reverse-cons, append_assoc}
use native.Mathlib.Omega.{arith}
use sns_kongswap_adaptor.Base.Tests.{if◌then◌else◌, Bool-cases}
use sns_kongswap_adaptor.Base.Lists.{length, length-append}

module _ {ℓ} {A : Type ℓ} where
  pub length-reverse : (xs : List A) → length (reverse xs) ≡ length xs
  length-reverse [] = refl
  length-reverse (x ∷ xs) = rw (reverse-cons x xs, length-append) (omega (arith, length-reverse xs))

  -- The reverse of a list that is cut at one element.
  pub reverse-cut :
      (xs : List A) (x : A) (ys : List A) → reverse (xs ++ x ∷ ys) ≡ reverse ys ++ (x ∷ reverse xs)
  reverse-cut xs x ys = rw (reverse-append xs (x ∷ ys), reverse-cons x ys, append_assoc)

module _ {ℓ} {A : Type ℓ} (p : A → Bool) where
  abbrev pub find : List A → Option A
  find [] = none
  find (x ∷ xs) = if p x then some x else find xs

  -- No element passes the test.
  abbrev pub fails : List A → Bool
  fails [] = true
  fails (x ∷ xs) = not (p x) && fails xs

  pub fails-append : (xs ys : List A) → fails (xs ++ ys) ≡ (fails xs && fails ys)
  fails-append [] ys = refl
  fails-append (x ∷ xs) ys = ground (arith, fails-append xs ys)

  pub fails-reverse : (xs : List A) → fails (reverse xs) ≡ fails xs
  fails-reverse [] = refl
  fails-reverse (x ∷ xs) =
      rw (reverse-cons x xs, fails-append (reverse xs) (x ∷ []), fails-reverse xs) (ground arith)

  pub find-fails : (xs : List A) → fails xs ≡ true → find xs ≡ none
  find-fails [] h = refl
  find-fails (x ∷ xs) h = ground (arith, find-fails xs)

  pub find-cut :
      (xs : List A) (x : A) (ys : List A)
      → fails xs ≡ true
      → p x ≡ true
      → find (xs ++ x ∷ ys) ≡ some x
  find-cut [] x ys h e = rw e
  find-cut (z ∷ xs) x ys h e = ground (arith, find-cut xs x ys)

  -- A list has no element that passes, or it is cut at the last one.
  pub data Last (l : List A) : Type ℓ where
    absent : fails l ≡ true → Last l
    cut :
        (before : List A) (x : A) (after : List A)
        → l ≡ before ++ x ∷ after
        → p x ≡ true
        → fails after ≡ true
        → Last l

  extend : (x : A) (xs : List A) → Last xs → Last (x ∷ xs)
  extend x xs (cut before y after e h k) = cut (x ∷ before) y after (ap (λ t. x ∷ t) e) h k
  extend x xs (absent h) = elim (Bool-cases (p x)) [
    | inl e ↦ cut [] x xs refl e h
    | inr e ↦ absent (ground arith)
  ]

  pub last_match : (l : List A) → Last l
  last_match [] = absent refl
  last_match (x ∷ xs) = extend x xs (last_match xs)
