-- ===== src/Base/Lists.antt =====
-- Counting over lists, with the native numbers.
use Prim.Native.Nat.{ℕ, suc, ◌+◌}
use mathlib.Core.Path.{◌≡◌}
use mathlib.Core.Bool.{Bool}
use mathlib.Core.List.{List, [], ◌∷◌, ◌++◌}
use native.Mathlib.Omega.{arith}
use ndt.Base.Test.{bit}

module _ {ℓ} {A : Type ℓ} where
  abbrev pub length : List A → ℕ
  length [] = 0
  length (x ∷ xs) = suc (length xs)

  -- How many entries pass the test.
  abbrev pub count_if : (A → Bool) → List A → ℕ
  count_if p [] = 0
  count_if p (x ∷ xs) = bit (p x) + count_if p xs

  pub count_if-append :
      (p : A → Bool) (xs ys : List A) → count_if p (xs ++ ys) ≡ count_if p xs + count_if p ys
  count_if-append p [] ys = omega arith
  count_if-append p (x ∷ xs) ys = omega (arith, count_if-append p xs ys)

  abbrev pub All {κ} : (A → Type κ) → List A → Type κ
  All P [] = Unit
  All P (x ∷ xs) = P x × All P xs

  pub All-append {κ} : (P : A → Type κ) (xs ys : List A) → All P xs → All P ys → All P (xs ++ ys)
  All-append P [] ys h k = k
  All-append P (x ∷ xs) ys h k = (h.0, All-append P xs ys h.1 k)

  -- Taking one entry out of a list.
  pub count_if_middle :
      (p : A → Bool) (pre : List A) (x : A) (post : List A)
      → count_if p (pre ++ x ∷ post) ≡ count_if p (pre ++ post) + bit (p x)
  count_if_middle p [] x post = omega arith
  count_if_middle p (y ∷ pre) x post = omega (arith, count_if_middle p pre x post)

  pub All-middle {κ} :
      (P : A → Type κ) (pre : List A) (x : A) (post : List A)
      → All P (pre ++ x ∷ post)
      → P x × All P (pre ++ post)
  All-middle P [] x post h = h
  All-middle P (y ∷ pre) x post h =
      let rest = All-middle P pre x post h.1 in (rest.0, (h.0, rest.1))

  pub All-split {κ} : (P : A → Type κ) (xs ys : List A) → All P (xs ++ ys) → All P xs × All P ys
  All-split P [] ys h = (tt, h)
  All-split P (x ∷ xs) ys h = let rest = All-split P xs ys h.1 in ((h.0, rest.0), rest.1)
