-- ===== src/Base/Bits.antt =====
-- `|` and `&` of words made of two bit fields, as arithmetic at every width.
use mathlib.Core.Path.{◌≡◌, refl, ap, ◌∙◌}
use Prim.Native.Nat.{ℕ, zero, suc, ◌+◌, ◌-◌, ◌*◌, ◌/◌, ◌%◌, ◌^◌, ◌≤◌, ◌<◌, bit_and, bit_or}
use Prim.Native.Nat.{min, max, digits, bitwise, bit_and-bitwise, bit_or-bitwise}
use native.Mathlib.Nat.{pow-suc, one-le-pow}
use native.Mathlib.Omega.{arith}

-- Fuel beyond the first number adds nothing.
module _ (z : ℕ → ℕ) (f : ℕ → ℕ → ℕ) where
  one_more_digit : (fuel a b : ℕ) → a ≤ fuel → digits z f (suc fuel) a b ≡ digits z f fuel a b
  one_more_digit zero zero b h = refl
  one_more_digit zero (suc a) b h = absurd (omega arith)
  one_more_digit (suc fuel) zero b h = refl
  one_more_digit (suc fuel) (suc a) b h =
      rw (one_more_digit fuel (suc a / 2) (b / 2) (omega arith)) refl

  spare_digits : (spare fuel a b : ℕ) → fuel ≡ spare + a → digits z f fuel a b ≡ bitwise z f a b
  spare_digits zero fuel a b e =
      let same : fuel ≡ a = omega arith in ap (λ n. digits z f n a b) same
  spare_digits (suc spare) zero a b e = absurd (omega arith)
  spare_digits (suc spare) (suc fuel) a b e =
      one_more_digit fuel a b (omega arith) ∙ spare_digits spare fuel a b (omega arith)

-- An operation that works digit by digit.
pub record IsDigitwise (op d : ℕ → ℕ → ℕ) : Type 0 where
  pub digit : (a b : ℕ) → op a b ≡ op (a / 2) (b / 2) * 2 + d (a % 2) (b % 2)

bit_or-IsDigitwise : IsDigitwise bit_or max
bit_or-IsDigitwise = record { digit = λ a b. lowest a b }
  where
    lowest : (a b : ℕ) → bit_or a b ≡ bit_or (a / 2) (b / 2) * 2 + max (a % 2) (b % 2)
    lowest zero b = simp bit_or-bitwise (omega arith)
    lowest (suc a) b = simp bit_or-bitwise (
        ap (λ t. t * 2 + max (suc a % 2) (b % 2))
          (spare_digits (λ y. y) max (a - suc a / 2) a (suc a / 2) (b / 2) (omega arith)))

pub bit_and-IsDigitwise : IsDigitwise bit_and min
bit_and-IsDigitwise = record { digit = λ a b. lowest a b }
  where
    lowest : (a b : ℕ) → bit_and a b ≡ bit_and (a / 2) (b / 2) * 2 + min (a % 2) (b % 2)
    lowest zero b = simp bit_and-bitwise (omega arith)
    lowest (suc a) b = simp bit_and-bitwise (
        ap (λ t. t * 2 + min (suc a % 2) (b % 2))
          (spare_digits (λ y. 0) min (a - suc a / 2) a (suc a / 2) (b / 2) (omega arith)))

-- The high fields and the low fields are worked on apart.
fields_apart :
    (op d : ℕ → ℕ → ℕ)
    → IsDigitwise op d
    → op 0 0 ≡ 0
    → (k q s r t : ℕ) → r < 2 ^ k
    → t < 2 ^ k
    → op (q * 2 ^ k + r) (s * 2 ^ k + t) ≡ op q s * 2 ^ k + op r t
fields_apart op d w none zero q s zero zero hr ht = ground arith
fields_apart op d w none zero q s zero (suc t) hr ht = absurd (omega arith)
fields_apart op d w none zero q s (suc r) t hr ht = absurd (omega arith)
fields_apart op d w none (suc k) q s r t hr ht = ground (
  arith,
  w.digit (q * 2 ^ suc k + r) (s * 2 ^ suc k + t),
  w.digit r t,
  double q k,
  double s k,
  double (op q s) k,
  fields_apart op d w none k q s (r / 2) (t / 2) (omega arith) (omega arith),
)
  where
    double : (x n : ℕ) → x * 2 ^ suc n ≡ 2 * (x * 2 ^ n)
    double x n = omega (arith, ap (λ p. x * p) (pow-suc 2 n))

or_nothing : (bound a : ℕ) → a ≤ bound → bit_or a 0 ≡ a
or_nothing bound zero h = refl
or_nothing zero (suc a) h = absurd (omega arith)
or_nothing (suc bound) (suc a) h =
    omega (arith, bit_or-IsDigitwise.digit (suc a) 0, or_nothing bound (suc a / 2) (omega arith))

nothing_or : (b : ℕ) → bit_or 0 b ≡ b
nothing_or b = simp bit_or-bitwise (omega arith)

and_nothing : (bound a : ℕ) → a ≤ bound → bit_and a 0 ≡ 0
and_nothing bound zero h = refl
and_nothing zero (suc a) h = absurd (omega arith)
and_nothing (suc bound) (suc a) h =
    omega (arith, bit_and-IsDigitwise.digit (suc a) 0, and_nothing bound (suc a / 2) (omega arith))

and_ones : (k r : ℕ) → r < 2 ^ k → bit_and r (2 ^ k - 1) ≡ r
and_ones zero zero h = refl
and_ones zero (suc r) h = absurd (omega arith)
and_ones (suc k) r h = ground (
  arith,
  bit_and-IsDigitwise.digit r (2 ^ suc k - 1),
  pow-suc 2 k,
  and_ones k (r / 2) (omega arith),
)

pub some_power : (k : ℕ) → 0 < 2 ^ k
some_power k = one-le-pow k 2 (omega arith)

-- A low field of `k` bits joined to a field above it.
pub bit_or_fields : (k q r : ℕ) → r < 2 ^ k → bit_or r (q * 2 ^ k) ≡ q * 2 ^ k + r
bit_or_fields k q r h = ground (
  arith,
  fields_apart bit_or max bit_or-IsDigitwise refl k 0 q r 0 h (some_power k),
  nothing_or q,
  or_nothing r r (omega arith),
)

pub bit_or_fields_left : (k q r : ℕ) → r < 2 ^ k → bit_or (q * 2 ^ k) r ≡ q * 2 ^ k + r
bit_or_fields_left k q r h = ground (
  arith,
  fields_apart bit_or max bit_or-IsDigitwise refl k q 0 0 r (some_power k) h,
  nothing_or r,
  or_nothing q q (omega arith),
)

-- A mask of ones keeps the low field.
pub bit_and_mask : (k a : ℕ) → bit_and a (2 ^ k - 1) ≡ a % 2 ^ k
bit_and_mask k a = ground (
  arith,
  one-le-pow k 2,
  fields_apart bit_and min bit_and-IsDigitwise refl k (a / 2 ^ k) 0 (a % 2 ^ k) (2 ^ k - 1)
      (omega (arith, one-le-pow k 2)) (omega (arith, one-le-pow k 2)),
  and_nothing (a / 2 ^ k) (a / 2 ^ k) (omega arith),
  and_ones k (a % 2 ^ k),
)

-- A mask whose low field is zero works on the field above.
pub bit_and_shifted :
    (k q r m : ℕ) → r < 2 ^ k → bit_and (q * 2 ^ k + r) (m * 2 ^ k) ≡ bit_and q m * 2 ^ k
bit_and_shifted k q r m h = ground (
  arith,
  fields_apart bit_and min bit_and-IsDigitwise refl k q m r 0 h (some_power k),
  and_nothing r r (omega arith),
)

-- A single bit as the mask.
pub bit_and_bit : (k q r : ℕ) → r < 2 ^ k → bit_and (q * 2 ^ k + r) (2 ^ k) ≡ q % 2 * 2 ^ k
bit_and_bit k q r h = ground (arith, bit_and_shifted k q r 1 h, bit_and_mask 1 q)
