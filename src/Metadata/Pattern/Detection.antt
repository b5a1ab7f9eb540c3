-- ===== src/Metadata/Pattern/Detection.antt =====
-- What a passed check tells of the buffer.
use ndt.Base.{&&_split, ℕ, zero, suc, ◌+◌, ◌*◌, ◌≤◌, ◌<◌, ◌≡◌, refl, arith, true, ◌==◌, pos}
use ndt.Metadata.Tags.{swap, swap_bytes, be48_sum, get_unaligned_be48}
use ndt.Base.{sym, ◌∙◌}
use ndt.Base.{==→eq, ◌/◌, ◌%◌, ◌^◌}
use ndt.Metadata.Pattern.{
  PiTuple, no_tuple, t10_pi_tuple, crc64_pi_tuple, load32, Capabilities, tuple_of, tuple_size,
  check_tag, pre_byte, post_byte, check_bytes,
}
use ndt.Metadata.Pattern.{remaining, next_interval, check_interval, check_from, check_metadata}

check_bytes_sound :
    (left j p : ℕ) (value m : ℕ → ℕ)
    → check_bytes left j p value m ≡ true
    → (k : ℕ) → j ≤ k
    → k < j + left
    → m (p + k) ≡ value k
unfolding check_bytes
check_bytes_sound zero j p value m h k a b = absurd (omega arith)
check_bytes_sound (suc left) j p value m h k a b =
    let (first, rest) = &&_split (m (p + j) == value j) (check_bytes left (j + 1) p value m) h in
    ground (arith, first, check_bytes_sound left (j + 1) p value m rest k)

pub check_bytes_complete :
    (left j p : ℕ) (value m : ℕ → ℕ)
    → ((k : ℕ) → j ≤ k → k < j + left → m (p + k) ≡ value k)
    → check_bytes left j p value m ≡ true
unfolding check_bytes
check_bytes_complete zero j p value m h = refl
check_bytes_complete (suc left) j p value m h = ground (
  arith,
  h j (omega arith) (omega arith),
  check_bytes_complete left (j + 1) p value m (λ k a b. h k (omega arith) (omega arith)),
)

-- The bytes of the reference tag, the highest first: the low 32 bits in the one tuple, and in the other
-- a number of 48 bits.
abbrev pub HoldsTag : PiTuple → ℕ → ℕ → (ℕ → ℕ) → Type 0
HoldsTag no_tuple ref p m = Unit
HoldsTag t10_pi_tuple ref p m =
    (m (p + 4) ≡ ref / 2 ^ 24 % 256)
    × (m (p + 4 + 1) ≡ ref / 2 ^ 16 % 256)
    × (m (p + 4 + 2) ≡ ref / 2 ^ 8 % 256)
    × (m (p + 4 + 3) ≡ ref % 256)
HoldsTag crc64_pi_tuple ref p m =
    (ref < 2 ^ 48)
    × (m (p + 10) ≡ ref / 2 ^ 40)
    × (m (p + 10 + 1) ≡ ref / 2 ^ 32 % 256)
    × (m (p + 10 + 2) ≡ ref / 2 ^ 24 % 256)
    × (m (p + 10 + 3) ≡ ref / 2 ^ 16 % 256)
    × (m (p + 10 + 4) ≡ ref / 2 ^ 8 % 256)
    × (m (p + 10 + 5) ≡ ref % 256)

big_endian :
    (ref a b c d : ℕ)
    → a < 256
    → b < 256
    → c < 256
    → d < 256
    → a * 2 ^ 24 + (b * 2 ^ 16 + (c * 2 ^ 8 + d)) ≡ ref % 2 ^ 32
    → (a ≡ ref / 2 ^ 24 % 256)
      × (b ≡ ref / 2 ^ 16 % 256)
      × (c ≡ ref / 2 ^ 8 % 256)
      × (d ≡ ref % 256)
big_endian ref a b c d ha hb hc hd e =
    (omega (arith, e), omega (arith, e), omega (arith, e), omega (arith, e))

big_endian48 :
    (ref a b c d e f : ℕ)
    → a < 256
    → b < 256
    → c < 256
    → d < 256
    → e < 256
    → f < 256
    → ((((a * 256 + b) * 256 + c) * 256 + d) * 256 + e) * 256 + f ≡ ref
    → (ref < 2 ^ 48)
      × (a ≡ ref / 2 ^ 40)
      × (b ≡ ref / 2 ^ 32 % 256)
      × (c ≡ ref / 2 ^ 24 % 256)
      × (d ≡ ref / 2 ^ 16 % 256)
      × (e ≡ ref / 2 ^ 8 % 256)
      × (f ≡ ref % 256)
big_endian48 ref a b c d e f ha hb hc hd he hf s = (
  omega (arith, s),
  omega (arith, s),
  omega (arith, s),
  omega (arith, s),
  omega (arith, s),
  omega (arith, s),
  omega (arith, s),
)

module _ (c : Capabilities) where
  pub next_interval_lem : (p : ℕ) → next_interval c p ≡ p + c.metadata_size
  unfolding next_interval
  next_interval_lem p = omega arith

  same_interval :
      (i i' ref ref' p p' : ℕ) (m : ℕ → ℕ)
      → i ≡ i'
      → ref ≡ ref'
      → p ≡ p'
      → check_interval c i ref p m ≡ true
      → check_interval c i' ref' p' m ≡ true
  same_interval i i' ref ref' p p' m a b d h = cc

  check_from_sound :
      (left i ref p : ℕ) (m : ℕ → ℕ)
      → check_from c left i ref p m ≡ true
      → (k : ℕ) → k < left
      → check_interval c (i + k) (ref + k) (p + k * c.metadata_size) m ≡ true
  unfolding check_from
  check_from_sound zero i ref p m h k below = absurd (omega arith)
  check_from_sound (suc left) i ref p m h zero below =
      same_interval i _ ref _ p _ m (omega arith) (omega arith) (omega arith) (&&_split _ _ h).0
  check_from_sound (suc left) i ref p m h (suc k) below =
      same_interval (i + 1 + k) _ (ref + 1 + k) _ (next_interval c p + k * c.metadata_size) _ m
        (omega arith) (omega arith) (grind (arith, next_interval_lem p))
        (check_from_sound left (i + 1) (ref + 1) (next_interval c p) m (&&_split _ _ h).1 k
          (omega arith))

  passes :
      (p intervals ref : ℕ) (m : ℕ → ℕ)
      → check_metadata c p intervals ref m ≡ pos 0
      → check_from c intervals 0 ref p m ≡ true
  unfolding check_metadata
  passes p intervals ref m h = ground arith

  parts :
      (i ref p : ℕ) (m : ℕ → ℕ)
      → check_interval c i ref p m ≡ true
      → (check_bytes c.pi_offset 0 p (pre_byte i ref) m ≡ true)
        × (check_tag (tuple_of c) ref (p + c.pi_offset) m ≡ true)
        × (check_bytes
              (remaining c)
              0
              (p + c.pi_offset + tuple_size (tuple_of c))
              (post_byte i ref)
              m
            ≡ true)
  unfolding check_interval
  parts i ref p m h =
      let both = &&_split _ _ h in let first = &&_split _ _ both.0 in (first.0, first.1, both.1)

  module _ (m : ℕ → ℕ) (bytes : (a : ℕ) → m a < 256) where
    check_tag_sound :
        (tuple : PiTuple) (ref p : ℕ) → check_tag tuple ref p m ≡ true → HoldsTag tuple ref p m
    unfolding check_tag load32
    check_tag_sound no_tuple ref p h = tt
    check_tag_sound t10_pi_tuple ref p h =
        let at : (j : ℕ) → m (p + j) < 256 = λ j. bytes (p + j) in
        let word =
          m (p + 4) + m (p + 4 + 1) * 2 ^ 8 + m (p + 4 + 2) * 2 ^ 16 + m (p + 4 + 3) * 2 ^ 24 in
        let same : swap word ≡ ref % 2 ^ 32 = ==→eq _ _ h in
        let sum =
          swap_bytes word (
            omega
              (arith, bytes (p + 4), bytes (p + 4 + 1), bytes (p + 4 + 2), bytes (p + 4 + 3))) in
        big_endian ref (m (p + 4)) (m (p + 4 + 1)) (m (p + 4 + 2)) (m (p + 4 + 3)) (bytes (p + 4))
          (bytes (p + 4 + 1)) (bytes (p + 4 + 2)) (bytes (p + 4 + 3)) (omega (arith, sum, same))
    check_tag_sound crc64_pi_tuple ref p h =
        let same : get_unaligned_be48 (p + 10) m ≡ ref = ==→eq _ _ h in
        let sum =
          be48_sum (p + 10) m (bytes (p + 10 + 1)) (bytes (p + 10 + 2)) (bytes (p + 10 + 3))
            (bytes (p + 10 + 4)) (bytes (p + 10 + 5)) in
        big_endian48 ref (m (p + 10)) (m (p + 10 + 1)) (m (p + 10 + 2)) (m (p + 10 + 3))
          (m (p + 10 + 4)) (m (p + 10 + 5)) (bytes (p + 10)) (bytes (p + 10 + 1))
          (bytes (p + 10 + 2)) (bytes (p + 10 + 3)) (bytes (p + 10 + 4)) (bytes (p + 10 + 5))
          (sym sum ∙ same)

  -- A check of a buffer of bytes that passes has seen, in every interval, each byte before the tuple,
  -- the bytes of the reference tag, the highest first, and each byte after the tuple as they are
  -- written; a single wrong one makes it fail.
  pub check_metadata_sound :
      (p intervals ref : ℕ) (m : ℕ → ℕ)
      → ((a : ℕ) → m a < 256)
      → check_metadata c p intervals ref m ≡ pos 0
      → (k : ℕ) → k < intervals
      → let start = p + k * c.metadata_size in
        let size = tuple_size (tuple_of c) in
        ((j : ℕ) → j < c.pi_offset → m (start + j) ≡ pre_byte k (ref + k) j)
        × HoldsTag (tuple_of c) (ref + k) (start + c.pi_offset) m
        × ((j : ℕ)
            → c.pi_offset + size + j < c.metadata_size
            → m (start + c.pi_offset + size + j) ≡ post_byte k (ref + k) j)
  check_metadata_sound p intervals ref m bytes h k below =
      let passed = check_from_sound intervals 0 ref p m (passes p intervals ref m h) k below in
      let here = same_interval (0 + k) k _ _ _ _ m (omega arith) refl refl passed in
      let (pre, tag, post) = parts k (ref + k) (p + k * c.metadata_size) m here in
      (
        λ j l. check_bytes_sound _ 0 _ (pre_byte k (ref + k)) m pre j (omega arith) (omega arith),
        check_tag_sound m bytes (tuple_of c) (ref + k) _ tag,
        λ j l.
            check_bytes_sound _ 0 _ (post_byte k (ref + k)) m post j (omega arith)
              (unfold remaining in omega arith),
      )
