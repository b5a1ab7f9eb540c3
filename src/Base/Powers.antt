-- ===== src/Base/Powers.antt =====
-- Powers of two and multiples, as C tests and rounds them.
use mathlib.Core.Path.{◌≡◌, refl, ap}
use mathlib.Core.Logic.{◌⊎◌, inl, inr}
use Prim.Native.Nat.{ℕ, zero, suc, ◌+◌, ◌-◌, ◌*◌, ◌/◌, ◌%◌, ◌^◌, ◌≤◌, ◌<◌, bit_and}
use native.Mathlib.Nat.{pow-suc}
use native.Mathlib.Omega.{arith}
use ndt.Base.Bits.{bit_and-IsDigitwise, bit_and_mask, some_power}

abbrev pub IsMultiple : ℕ → ℕ → Type 0
IsMultiple a b = (m : ℕ) × (b ≡ m * a)

abbrev pub IsPower : ℕ → Type 0
IsPower x = (k : ℕ) × (x ≡ 2 ^ k)

and_self : (bound a : ℕ) → a ≤ bound → bit_and a a ≡ a
and_self bound zero h = refl
and_self zero (suc a) h = absurd (omega arith)
and_self (suc bound) (suc a) h =
    omega
      (arith, bit_and-IsDigitwise.digit (suc a) (suc a), and_self bound (suc a / 2) (omega arith))

-- A number that has no bit in common with its predecessor.
one_bit : (bound x : ℕ) → x ≤ bound → 0 < x → bit_and x (x - 1) ≡ 0 → IsPower x
one_bit zero x h p e = absurd (omega arith)
one_bit (suc bound) x h p e = elim (split_two (x % 2) (omega arith)) [
  | inl odd ↦ (
    0,
    omega (
      arith,
      bit_and-IsDigitwise.digit x (x - 1),
      ap (λ t. bit_and (x / 2) t) (same odd),
      and_self (x / 2) (x / 2) (omega arith),
    ),
  )
  | inr even ↦
      let half = one_bit bound (x / 2) (omega arith) (omega arith) (halves even) in
      (suc half.0, omega (arith, half.1, pow-suc 2 (half.0)))
]
  where
    split_two : (n : ℕ) → n < 2 → (n ≡ 1) ⊎ (n ≡ 0)
    split_two zero l = inr refl
    split_two (suc zero) l = inl refl
    split_two (suc (suc n)) l = absurd (omega arith)

    same : x % 2 ≡ 1 → (x - 1) / 2 ≡ x / 2
    same odd = omega arith

    before : x % 2 ≡ 0 → (x - 1) / 2 ≡ x / 2 - 1
    before even = omega arith

    halves : x % 2 ≡ 0 → bit_and (x / 2) (x / 2 - 1) ≡ 0
    halves even =
        omega
          (arith, bit_and-IsDigitwise.digit x (x - 1), ap (λ t. bit_and (x / 2) t) (before even))

-- The smaller of two powers divides the larger.
power_divides : (i j : ℕ) → 2 ^ i ≤ 2 ^ j → IsMultiple (2 ^ i) (2 ^ j)
power_divides zero j h = (2 ^ j, omega arith)
power_divides (suc i) zero h = absurd (omega (arith, pow-suc 2 i, some_power i))
power_divides (suc i) (suc j) h =
    let (m, e) = power_divides i j (omega (arith, pow-suc 2 i, pow-suc 2 j)) in
    (m, omega (arith, e, pow-suc 2 j, ap (λ (t : ℕ). m * t) (pow-suc 2 i)))

pub IsPower-divides : {a b : ℕ} → IsPower a → IsPower b → a ≤ b → IsMultiple a b
IsPower-divides {a} {b} (i, e) (j, f) h =
    let (m, g) = power_divides i j (omega (arith, e, f)) in
    (m, omega (arith, f, g, ap (λ (t : ℕ). m * t) e))

pub IsPower-pos : {a : ℕ} → IsPower a → 0 < a
IsPower-pos (k, e) = omega (arith, e, some_power k)

-- `x && !(x & (x - 1))` holds of powers of two only.
pub IsPower-of_test : (x : ℕ) → 0 < x → bit_and x (x - 1) ≡ 0 → IsPower x
IsPower-of_test x h e = one_bit x x (omega arith) h e

-- `x & (a - 1)` is the remainder.
pub bit_and-power : {a : ℕ} → IsPower a → (x : ℕ) → bit_and x (a - 1) ≡ x % a
bit_and-power (k, e) x = rw e (bit_and_mask k x)

-- The two parts of a word that a mask and its complement keep.
pub bit_and-complement :
    (n x c : ℕ) → x < 2 ^ n → c < 2 ^ n → bit_and x (2 ^ n - 1 - c) + bit_and x c ≡ x
bit_and-complement zero zero zero h l = refl
bit_and-complement zero zero (suc c) h l = absurd (omega arith)
bit_and-complement zero (suc x) c h l = absurd (omega arith)
bit_and-complement (suc n) x c h l = omega (
  arith,
  pow-suc 2 n,
  bit_and-IsDigitwise.digit x (2 ^ suc n - 1 - c),
  bit_and-IsDigitwise.digit x c,
  ap (λ t. bit_and (x / 2) t) halved,
  bit_and-complement n (x / 2) (c / 2) (omega (arith, pow-suc 2 n)) (omega (arith, pow-suc 2 n)),
)
  where
    halved : (2 ^ suc n - 1 - c) / 2 ≡ 2 ^ n - 1 - c / 2
    halved = omega (arith, pow-suc 2 n)

-- Multiples of sums and products.
pub IsMultiple-self : (d : ℕ) → IsMultiple d d
IsMultiple-self d = (1, omega arith)

pub IsMultiple-zero : (d : ℕ) → IsMultiple d 0
IsMultiple-zero d = (0, omega arith)

pub IsMultiple-add : (d a b : ℕ) → IsMultiple d a → IsMultiple d b → IsMultiple d (a + b)
IsMultiple-add d a b (m, e) (n, f) = (m + n, grind (arith, e, f))

pub IsMultiple-mul : (d a k : ℕ) → IsMultiple d a → IsMultiple d (a * k)
IsMultiple-mul d a k (m, e) = (m * k, grind (arith, ap (λ (t : ℕ). t * k) e))

pub IsMultiple-trans : (c d a : ℕ) → IsMultiple c d → IsMultiple d a → IsMultiple c a
IsMultiple-trans c d a (m, e) (n, f) = (n * m, grind (arith, f, ap (λ (t : ℕ). n * t) e))
