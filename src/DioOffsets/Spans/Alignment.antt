-- ===== src/DioOffsets/Spans/Alignment.antt =====
-- Which offsets and lengths are aligned, and which are not.
use ndt.Base.{ℕ, zero, suc, ◌+◌, ◌-◌, ◌*◌, ◌^◌, ◌≤◌, ◌<◌, ◌≡◌, refl, sym, subst, arith}
use mathlib.Core.Path.{◌≡⟨◌⟩◌, ◌∎}
use ndt.Base.{All, length, IsMultiple, IsPower-divides, IsPower-pos}
use ndt.Base.{IsMultiple-self, IsMultiple-add, IsMultiple-mul, IsMultiple-trans}
use ndt.DioOffsets.Words.{u64, sub64, as_int}
use ndt.DioOffsets.Globals.{Globals}
use ndt.DioOffsets.Globals.Sound.{IsSound}
use ndt.DioOffsets.Spans.{Span, spans, page_aligned_spans, dma_aligned_spans, invalid_dma_span}

-- A number that `d` does not divide.
abbrev pub IsUnaligned : ℕ → ℕ → Type 0
IsUnaligned d x = (q : ℕ) × (r : ℕ) × (x ≡ q * d + r) × (0 < r) × (r < d)

-- At an address that the device's alignment divides, whole blocks.
abbrev pub IsAligned : Globals → Span → Type 0
IsAligned g s = IsMultiple g.dma_alignment s.offset × IsMultiple g.logical_block_size s.size

pub All-spans {κ} :
    (P : Span → Type κ) (f : ℕ → Span) (n i : ℕ)
    → ((k : ℕ) → i ≤ k → k < i + n → P (f k))
    → All P (spans f n i)
unfolding spans
All-spans P f zero i h = tt
All-spans P f (suc n) i h = (
  h i (omega arith) (omega arith),
  All-spans P f n (i + 1) (λ k a b. h k (omega arith) (omega arith)),
)

pub length-spans : (f : ℕ → Span) (n i : ℕ) → length (spans f n i) ≡ n
unfolding spans
length-spans f zero i = refl
length-spans f (suc n) i = omega (arith, length-spans f n (i + 1))

-- An `int` offset that fits is the offset.
pub as_int-eq : (x : ℕ) → x < 2 ^ 31 → as_int x ≡ x
as_int-eq x h = ground arith

-- A multiple and one less than `d` more.
one_short : {d a : ℕ} → IsMultiple d a → 1 < d → IsUnaligned d (a + (d - 1))
one_short {d} (m, e) h = (m, d - 1, omega (arith, e), omega arith, omega arith)

-- Two blocks less one byte more than the alignment.
shortened :
    (lb d : ℕ)
    → IsMultiple d lb
    → 1 < d
    → d ≤ lb
    → lb ≤ 2 ^ 20
    → IsUnaligned d (sub64 (u64 (lb * 2)) (d + 1))
shortened lb d (zero, e) h l s = absurd (omega arith)
shortened lb d (suc p, e) h l s = (
  p + p,
  d - 1,
  sub64 (u64 (lb * 2)) (d + 1)
      ≡⟨ omega arith ⟩ lb * 2 - (d + 1)
      ≡⟨ grind (arith, e) ⟩ (p + p) * d + (d - 1) ∎,
  omega arith,
  omega arith,
)

module _ (g : Globals) (sound : IsSound g) (small : g.logical_block_size ≤ 2 ^ 20) where
  dma_divides : IsMultiple g.dma_alignment g.logical_block_size
  dma_divides = IsPower-divides sound.dma_power sound.block_power sound.dma_fits

  dma_pos : 0 < g.dma_alignment
  dma_pos = IsPower-pos sound.dma_power

  block_small : (k i : ℕ) → i ≤ 4 → k ≤ 8 → g.logical_block_size * i * k ≤ 2 ^ 25
  block_small k i h l = grind (arith, small)

  two_blocks : IsMultiple g.logical_block_size (u64 (g.logical_block_size * 2))
  two_blocks = (2, omega arith)

  pub page_aligned_spans-IsAligned : All (IsAligned g) (page_aligned_spans g)
  unfolding page_aligned_spans
  page_aligned_spans-IsAligned = All-spans (IsAligned g) _ 4 0 λ i a b. (
    subst (IsMultiple g.dma_alignment)
        (sym (as_int-eq _ (omega (arith, block_small 4 i (omega arith) (omega arith)))))
        (IsMultiple-mul _ _ 4 (IsMultiple-mul _ _ i dma_divides)),
    two_blocks,
  )

  pub dma_aligned_spans-IsAligned : All (IsAligned g) (dma_aligned_spans g)
  unfolding dma_aligned_spans
  dma_aligned_spans-IsAligned = All-spans (IsAligned g) _ 4 0 λ i a b. (
    subst (IsMultiple g.dma_alignment) (sym (as_int-eq _ (in_range i (omega arith)))) (
        IsMultiple-add _ _ _ (IsMultiple-mul _ _ 8 (IsMultiple-mul _ _ i dma_divides))
          (IsMultiple-mul _ _ (i + 1) (IsMultiple-self g.dma_alignment))),
    two_blocks,
  )
    where
      steps : (i : ℕ) → i < 4 → g.dma_alignment * (i + 1) ≤ 2 ^ 23
      steps i h = grind (arith, small, sound.dma_fits)

      in_range : (i : ℕ) → i < 4 → g.logical_block_size * i * 8 + g.dma_alignment * (i + 1) < 2 ^ 31
      in_range i h = omega (arith, block_small 8 i (omega arith) (omega arith), steps i h)

  -- The offset of `test_invalid_dma_alignment`.
  invalid_offset :
      1 < g.dma_alignment
      → as_int (2 * g.dma_alignment - 1) ≡ g.dma_alignment + (g.dma_alignment - 1)
  invalid_offset h = ground (arith, small, sound.dma_fits)

  pub invalid_dma_span-IsUnaligned :
      1 < g.dma_alignment → IsUnaligned g.dma_alignment ((invalid_dma_span g).offset)
  unfolding invalid_dma_span
  invalid_dma_span-IsUnaligned h =
      subst (IsUnaligned g.dma_alignment) (sym (invalid_offset h))
        (one_short (IsMultiple-self g.dma_alignment) h)

  bytes_divided : IsMultiple g.dma_alignment g.max_bytes
  bytes_divided = IsMultiple-trans _ _ _ dma_divides sound.bytes_whole

  pub vector_alignment-IsUnaligned :
      1 < g.dma_alignment
      → IsUnaligned g.dma_alignment (g.max_bytes * 4 + as_int (g.dma_alignment * 2 - 1))
  vector_alignment-IsUnaligned h =
      let there : g.max_bytes * 4 + as_int (g.dma_alignment * 2 - 1)
          ≡ g.max_bytes * 4 + g.dma_alignment + (g.dma_alignment - 1) =
        ground (arith, small, sound.dma_fits) in
      subst (IsUnaligned g.dma_alignment) (sym there) (
        one_short (IsMultiple-add _ _ _ (IsMultiple-mul _ _ 4 bytes_divided) (IsMultiple-self _)) h)

  pub large-IsUnaligned :
      IsMultiple g.dma_alignment g.pagesize
      → 1 < g.dma_alignment
      → IsUnaligned g.dma_alignment
          (g.max_bytes + g.logical_block_size + g.pagesize * 2 + (g.dma_alignment - 1))
  large-IsUnaligned page h =
      one_short
        (IsMultiple-add _ _ _ (IsMultiple-add _ _ _ bytes_divided dma_divides)
          (IsMultiple-mul _ _ 2 page))
        h

  pub vector_length-IsUnaligned :
      1 < g.dma_alignment
      → IsUnaligned g.dma_alignment (sub64 (u64 (g.logical_block_size * 2)) (g.dma_alignment + 1))
  vector_length-IsUnaligned h =
      shortened g.logical_block_size g.dma_alignment dma_divides h sound.dma_fits small
