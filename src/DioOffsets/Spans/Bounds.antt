-- ===== src/DioOffsets/Spans/Bounds.antt =====
-- The tests stay within the two buffers.
pub mod Program
use ndt.Base.{
  ℕ, zero, suc, ◌+◌, ◌-◌, ◌*◌, ◌/◌, ◌%◌, ◌^◌, ◌≤◌, ◌<◌, ◌≡◌, refl, sym, ap, ◌∙◌, subst, arith,
}
use ndt.Base.{if◌then◌else◌, ltb, ◌==◌, bit_and, List, [], ◌∷◌, All, All-append}
use ndt.DioOffsets.Words.{u64, sub64, as_int}
use ndt.DioOffsets.Globals.{Globals}
use ndt.DioOffsets.Spans.{
  Span, span, spans, page_aligned_spans, dma_aligned_spans, page_mult, first_offset, first_size,
  page_offset, unaligned_page_spans, unaligned_spans, starting_spans, middle_spans,
  invalid_dma_span, vector_alignment_spans, iov_size, limit_spans, large_spans, vector_length_spans,
}
use ndt.DioOffsets.Spans.Alignment.{All-spans}

-- Buffers of at least 4096 blocks and 13 largest transfers, blocks of at most 1 MiB and two to a
-- transfer, pages of at most 64 KiB, not above 128 blocks, not below half a block, and not below the
-- alignment.
pub record IsRoomy (g : Globals) : Type 0 where
  pub some_block : 0 < g.logical_block_size
  pub block_small : g.logical_block_size ≤ 2 ^ 20
  pub some_alignment : 0 < g.dma_alignment
  pub dma_fits : g.dma_alignment ≤ g.logical_block_size
  pub bytes_limited : g.max_bytes ≤ 2 ^ 24
  pub two_blocks : 2 * g.logical_block_size ≤ g.max_bytes
  pub page_small : g.pagesize ≤ 2 ^ 16
  pub page_few_blocks : g.pagesize ≤ 128 * g.logical_block_size
  pub block_few_pages : g.logical_block_size ≤ 2 * g.pagesize
  pub dma_in_page : g.dma_alignment ≤ g.pagesize
  pub blocks_fit : g.logical_block_size * 4096 ≤ g.buf_size
  pub transfers_fit : 13 * g.max_bytes ≤ g.buf_size

-- The vectors of all tests, less those at a null address.
abbrev pub tests : Globals → List (List Span)
tests g =
    (span 0 g.buf_size ∷ [])
    ∷ (span g.dma_alignment g.max_bytes ∷ [])
    ∷ page_aligned_spans g
    ∷ dma_aligned_spans g
    ∷ unaligned_page_spans g
    ∷ unaligned_spans g
    ∷ starting_spans g
    ∷ middle_spans g 513 0
    ∷ middle_spans g 510 514
    ∷ (invalid_dma_span g ∷ [])
    ∷ vector_alignment_spans g
    ∷ limit_spans g
    ∷ large_spans g
    ∷ vector_length_spans g
    ∷ []

abbrev pub IsInside : Globals → Span → Type 0
IsInside g s = s.offset + s.size ≤ g.buf_size

shuffled : (a i m : ℕ) → a * i * 8 * m ≡ i * (a * m) * 8
shuffled a i m = grind arith

-- A loop of spans at multiples of a block: `k` blocks apart, `n` of them, of `c` blocks.
module _ (g : Globals) (r : IsRoomy g) where
  multiple-le :
      (i n k : ℕ)
      → i < n
      → g.logical_block_size * i * k + g.logical_block_size * k ≤ g.logical_block_size * (n * k)
  multiple-le i n k h = grind arith

  page_aligned-IsInside : All (IsInside g) (page_aligned_spans g)
  unfolding page_aligned_spans
  page_aligned-IsInside =
      All-spans (IsInside g) _ 4 0
        λ i a b. ground (arith, multiple-le i 4 4, r.blocks_fit, r.block_small)

  steps-le : (i : ℕ) → i < 4 → g.dma_alignment * (i + 1) ≤ g.logical_block_size * 4
  steps-le i h = grind (arith, r.dma_fits)

  dma_aligned-IsInside : All (IsInside g) (dma_aligned_spans g)
  unfolding dma_aligned_spans
  dma_aligned-IsInside =
      All-spans (IsInside g) _ 4 0
        λ i a b. ground (arith, multiple-le i 4 8, steps-le i, r.blocks_fit, r.block_small)

  unaligned-IsInside : All (IsInside g) (unaligned_spans g)
  unfolding unaligned_spans
  unaligned-IsInside =
      All-spans (IsInside g) _ 4 0
        λ i a b. ground (arith, multiple-le i 4 8, r.blocks_fit, r.block_small)

  starting-IsInside : All (IsInside g) (starting_spans g)
  unfolding starting_spans
  starting-IsInside =
      All-spans (IsInside g) _ 3 1
        λ i a b. ground (arith, multiple-le i 4 8, r.blocks_fit, r.block_small)

  middle-IsInside : (n i : ℕ) → i + n ≤ 1024 → All (IsInside g) (middle_spans g n i)
  unfolding middle_spans
  middle-IsInside n i h =
      All-spans (IsInside g) _ n i
        λ k a b. ground (arith, multiple-le k 1024 2, r.blocks_fit, r.block_small)

  iov_size-le : iov_size g ≤ g.logical_block_size
  unfolding iov_size
  iov_size-le = grind arith

  limit-le : (i : ℕ) → i < 320 → i * iov_size g * 2 + iov_size g ≤ g.logical_block_size * 640
  limit-le i h = grind (arith, iov_size-le)

  limit-IsInside : All (IsInside g) (limit_spans g)
  unfolding limit_spans
  limit-IsInside =
      All-spans (IsInside g) _ 320 0
        λ i a b. ground (arith, limit-le i, r.blocks_fit, r.block_small)

  invalid_dma-IsInside : IsInside g (invalid_dma_span g)
  unfolding invalid_dma_span
  invalid_dma-IsInside = ground (arith, r.blocks_fit, r.block_small, r.dma_fits)

  vector_alignment-IsInside : All (IsInside g) (vector_alignment_spans g)
  unfolding vector_alignment_spans
  vector_alignment-IsInside =
      ground (arith, r.transfers_fit, r.two_blocks, r.dma_fits, r.block_small)

  large-IsInside : All (IsInside g) (large_spans g)
  unfolding large_spans
  large-IsInside = ground (arith, r.transfers_fit, r.blocks_fit, r.two_blocks, r.dma_fits)

  vector_length-IsInside : All (IsInside g) (vector_length_spans g)
  unfolding vector_length_spans
  vector_length-IsInside = ground (arith, r.transfers_fit, r.two_blocks, r.dma_fits, r.block_small)

  -- A page or two blocks.
  abbrev pub many : ℕ
  many = g.logical_block_size * page_mult g

  quotient-le : g.pagesize / g.logical_block_size ≤ 128
  quotient-le = grind (arith, r.page_few_blocks, r.some_block)

  page_mult-le : (2 ≤ page_mult g) × (page_mult g ≤ 128)
  unfolding page_mult
  page_mult-le = ground (arith, quotient-le)

  many-le : many ≤ g.logical_block_size * 128
  many-le = let (a, b) = page_mult-le in grind (arith, b)

  block-le : g.logical_block_size ≤ many
  block-le = let (a, b) = page_mult-le in grind (arith, a)

  page_multiple : (i : ℕ) → g.logical_block_size * i * 8 * page_mult g ≡ i * many * 8
  page_multiple i = shuffled g.logical_block_size i (page_mult g)

  many_times : (i : ℕ) → i ≤ 3 → i * many ≤ 3 * many
  many_times i h = grind arith

  page_offset_lem : (i : ℕ) → i ≤ 3 → page_offset g i + many ≤ g.buf_size
  unfolding page_offset
  page_offset_lem i h =
      rw (page_multiple i) (ground (arith, many_times i h, many-le, r.blocks_fit, r.block_small))

  first_lem : (first_offset g + first_size g ≡ g.pagesize) × (first_size g ≤ g.logical_block_size)
  unfolding first_offset first_size
  first_lem =
      ground (arith, r.page_small, r.dma_in_page, r.block_few_pages, r.dma_fits, r.block_small)

  pub u64-many : u64 many ≡ many
  u64-many = omega (arith, many-le, r.block_small)

  -- The first and the last vector together have as many bytes as each of the others.
  pub first-rest : first_size g + sub64 (u64 many) (first_size g) ≡ many
  first-rest = ground (arith, u64-many, first_lem.1, block-le, many-le, r.block_small)

  rest-le : sub64 (u64 many) (first_size g) ≤ many
  rest-le = omega (arith, first-rest)

  unaligned_page-IsInside : All (IsInside g) (unaligned_page_spans g)
  unfolding unaligned_page_spans
  unaligned_page-IsInside = (
    omega (arith, first_lem.0, r.page_few_blocks, r.blocks_fit),
    All-append _ _ _
        (All-spans (IsInside g) _ 2 1
          (λ i a b. omega (arith, u64-many, page_offset_lem i (omega arith))))
        (omega (arith, rest-le, page_offset_lem 3 (omega arith)), tt),
  )

  pub tests-IsInside : All (All (IsInside g)) (tests g)
  tests-IsInside = (
    (omega arith, tt),
    (
      (omega (arith, r.transfers_fit, r.two_blocks, r.dma_fits), tt),
      (
        page_aligned-IsInside,
        (
          dma_aligned-IsInside,
          (
            unaligned_page-IsInside,
            (
              unaligned-IsInside,
              (
                starting-IsInside,
                (
                  middle-IsInside 513 0 (omega arith),
                  (
                    middle-IsInside 510 514 (omega arith),
                    (
                      (invalid_dma-IsInside, tt),
                      (
                        vector_alignment-IsInside,
                        (limit-IsInside, (large-IsInside, (vector_length-IsInside, tt))),
                      ),
                    ),
                  ),
                ),
              ),
            ),
          ),
        ),
      ),
    ),
  )
