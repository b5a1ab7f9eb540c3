-- ===== src/Metadata/Tags.antt =====
-- `swap` and the 48-bit big-endian accessors.
use ndt.Base.{ℕ, ◌+◌, ◌*◌, ◌/◌, ◌%◌, ◌^◌, ◌<◌, ◌≡◌, bit_and, bit_or, arith, update}
use native.Mathlib.Nat.{one-le-pow}
use ndt.Base.{◌≤◌, ◌⊎◌, bit_or_fields, bit_or_fields_left, bit_and_mask, bit_and_shifted}

unfoldable pub swap : ℕ → ℕ
swap value =
    bit_or
      (bit_or (bit_or (bit_and (value / 2 ^ 24) 0xff) (bit_and (value / 2 ^ 8) 0xff00))
        (bit_and (value * 2 ^ 8 % 2 ^ 32) 0xff0000))
      (bit_and (value * 2 ^ 24 % 2 ^ 32) 0xff000000)

-- The byte at bit `k`, where it stands.
byte_mask : (k x : ℕ) → bit_and x (255 * 2 ^ k) ≡ x / 2 ^ k % 256 * 2 ^ k
byte_mask k x = ground (
  arith,
  one-le-pow k 2,
  bit_and_shifted k (x / 2 ^ k) (x % 2 ^ k) 255,
  bit_and_mask 8 (x / 2 ^ k),
)

-- Four bytes joined by `|` are a sum.
join_four :
    (a b c d : ℕ)
    → a < 256
    → b < 256
    → c < 256
    → bit_or (bit_or (bit_or a (b * 2 ^ 8)) (c * 2 ^ 16)) (d * 2 ^ 24)
      ≡ d * 2 ^ 24 + (c * 2 ^ 16 + (b * 2 ^ 8 + a))
join_four a b c d ha hb hc = rw (bit_or_fields 8 b a ha) (
    rw (bit_or_fields 16 c (b * 2 ^ 8 + a) (omega arith))
      (bit_or_fields 24 d (c * 2 ^ 16 + (b * 2 ^ 8 + a)) (omega arith)))

-- `swap` puts the four bytes of a 32-bit value in reverse order.
pub swap_bytes :
    (v : ℕ)
    → v < 2 ^ 32
    → swap v
      ≡ v % 256 * 2 ^ 24 + (v / 2 ^ 8 % 256 * 2 ^ 16 + (v / 2 ^ 16 % 256 * 2 ^ 8 + v / 2 ^ 24))
unfolding swap
swap_bytes v h = rw (bit_and_mask 8 (v / 2 ^ 24)) (
    rw (byte_mask 8 (v / 2 ^ 8)) (
      rw (byte_mask 16 (v * 2 ^ 8 % 2 ^ 32)) (
        rw (byte_mask 24 (v * 2 ^ 24 % 2 ^ 32)) (
          omega (
            arith,
            join_four (v / 2 ^ 24 % 2 ^ 8) (v / 2 ^ 8 / 2 ^ 8 % 256)
                (v * 2 ^ 8 % 2 ^ 32 / 2 ^ 16 % 256) (v * 2 ^ 24 % 2 ^ 32 / 2 ^ 24 % 256)
                (omega arith) (omega arith) (omega arith),
          )))))

-- `swap` undoes itself on 32-bit values.
pub swap-swap : (v : ℕ) → v < 2 ^ 32 → swap (swap v) ≡ v
swap-swap v h = omega (arith, swap_bytes v h, swap_bytes (swap v) (omega (arith, swap_bytes v h)))

-- The six stores of `__put_unaligned_be48`.
unfoldable pub put_unaligned_be48 : ℕ → ℕ → (ℕ → ℕ) → ℕ → ℕ
put_unaligned_be48 val p m =
    let m0 = update m p (bit_and (val / 2 ^ 40) 0xff) in
    let m1 = update m0 (p + 1) (bit_and (val / 2 ^ 32) 0xff) in
    let m2 = update m1 (p + 2) (bit_and (val / 2 ^ 24) 0xff) in
    let m3 = update m2 (p + 3) (bit_and (val / 2 ^ 16) 0xff) in
    let m4 = update m3 (p + 4) (bit_and (val / 2 ^ 8) 0xff) in update m4 (p + 5) (bit_and val 0xff)

unfoldable pub get_unaligned_be48 : ℕ → (ℕ → ℕ) → ℕ
get_unaligned_be48 p m =
    bit_or
      (bit_or
        (bit_or (bit_or (bit_or (m p * 2 ^ 40) (m (p + 1) * 2 ^ 32)) (m (p + 2) * 2 ^ 24))
          (m (p + 3) * 2 ^ 16))
        (m (p + 4) * 2 ^ 8))
      (m (p + 5))

-- Bytes shifted into place, the high ones first, are joined to a sum.
pub be48_sum :
    (p : ℕ) (m : ℕ → ℕ)
    → m (p + 1) < 256
    → m (p + 2) < 256
    → m (p + 3) < 256
    → m (p + 4) < 256
    → m (p + 5) < 256
    → get_unaligned_be48 p m
      ≡ ((((m p * 256 + m (p + 1)) * 256 + m (p + 2)) * 256 + m (p + 3)) * 256 + m (p + 4)) * 256
        + m (p + 5)
unfolding get_unaligned_be48
be48_sum p m s1 s2 s3 s4 s5 =
    let h1 = bit_or_fields_left 40 (m p) (m (p + 1) * 2 ^ 32) (omega arith) in
    let h2 = bit_or_fields_left 32 (m p * 256 + m (p + 1)) (m (p + 2) * 2 ^ 24) (omega arith) in
    let h3 =
      bit_or_fields_left 24 ((m p * 256 + m (p + 1)) * 256 + m (p + 2)) (m (p + 3) * 2 ^ 16)
        (omega arith) in
    let h4 =
      bit_or_fields_left 16 (((m p * 256 + m (p + 1)) * 256 + m (p + 2)) * 256 + m (p + 3))
        (m (p + 4) * 2 ^ 8) (omega arith) in
    let h5 =
      bit_or_fields_left 8
        ((((m p * 256 + m (p + 1)) * 256 + m (p + 2)) * 256 + m (p + 3)) * 256 + m (p + 4))
        (m (p + 5)) s5 in
    ground (arith, h1, h2, h3, h4, h5)

-- What `__put_unaligned_be48` stores: the six bytes of the value, and nothing else.
pub put_unaligned_be48_bytes :
    (val p : ℕ) (m : ℕ → ℕ)
    → (put_unaligned_be48 val p m p ≡ val / 2 ^ 40 % 256)
      × (put_unaligned_be48 val p m (p + 1) ≡ val / 2 ^ 32 % 256)
      × (put_unaligned_be48 val p m (p + 2) ≡ val / 2 ^ 24 % 256)
      × (put_unaligned_be48 val p m (p + 3) ≡ val / 2 ^ 16 % 256)
      × (put_unaligned_be48 val p m (p + 4) ≡ val / 2 ^ 8 % 256)
      × (put_unaligned_be48 val p m (p + 5) ≡ val % 256)
unfolding put_unaligned_be48
put_unaligned_be48_bytes val p m = (
  ground (arith, bit_and_mask 8 (val / 2 ^ 40)),
  ground (arith, bit_and_mask 8 (val / 2 ^ 32)),
  ground (arith, bit_and_mask 8 (val / 2 ^ 24)),
  ground (arith, bit_and_mask 8 (val / 2 ^ 16)),
  ground (arith, bit_and_mask 8 (val / 2 ^ 8)),
  ground (arith, bit_and_mask 8 val),
)

pub put_unaligned_be48_outside :
    (val p : ℕ) (m : ℕ → ℕ) (a : ℕ) → (a < p) ⊎ (p + 6 ≤ a) → put_unaligned_be48 val p m a ≡ m a
unfolding put_unaligned_be48
put_unaligned_be48_outside val p m a h = ground arith

-- Reading back what was stored gives the low 48 bits of the value.
pub get-put_unaligned_be48 :
    (val p : ℕ) (m : ℕ → ℕ) → get_unaligned_be48 p (put_unaligned_be48 val p m) ≡ val % 2 ^ 48
get-put_unaligned_be48 val p m =
    let b = put_unaligned_be48_bytes val p m in
    omega (
      arith,
      b,
      be48_sum p (put_unaligned_be48 val p m) (omega (arith, b)) (omega (arith, b))
          (omega (arith, b)) (omega (arith, b)) (omega (arith, b)),
    )
