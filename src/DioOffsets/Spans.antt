-- ===== src/DioOffsets/Spans.antt =====
-- The parts of the buffers that each test transfers: the `offset` and the `iov_len` of its vectors.
pub mod Bounds
pub mod Totals
pub mod Alignment
use ndt.Base.{
  ℕ, zero, suc, ◌+◌, ◌-◌, ◌*◌, ◌/◌, ◌^◌, bit_and, ltb, ◌==◌, Bool, not, ◌&&◌, if◌then◌else◌,
}
use ndt.Base.{List, [], ◌∷◌, ◌++◌}
use ndt.DioOffsets.Words.{u64, sub64, as_int}
use ndt.DioOffsets.Globals.{Globals}

-- `size` bytes at `offset` of a buffer.
pub record Span : Type 0 where
  pub offset : ℕ
  pub size : ℕ

abbrev pub span : ℕ → ℕ → Span
span o n = record { offset = o; size = n }

-- `for (k = i; k < i + left; k++)`, a span for each turn.
unfoldable pub spans : (ℕ → Span) → ℕ → ℕ → List Span
spans f zero i = []
spans f (suc left) i = f i ∷ spans f left (i + 1)

module _ (g : Globals) where
  unfoldable pub page_aligned_spans : List Span
  page_aligned_spans =
      spans (λ i. span (as_int (g.logical_block_size * i * 4)) (u64 (g.logical_block_size * 2))) 4 0

  unfoldable pub dma_aligned_spans : List Span
  dma_aligned_spans =
      spans
        (λ i.
          span (as_int (g.logical_block_size * i * 8 + g.dma_alignment * (i + 1)))
            (u64 (g.logical_block_size * 2)))
        4 0

  -- `mult`; a page has less than 2 ^ 31 bytes.
  unfoldable pub page_mult : ℕ
  page_mult =
      if ltb (g.pagesize / g.logical_block_size) 2 then 2 else g.pagesize / g.logical_block_size

  -- The offset of the first vector of `test_unaligned_page_vectors`.
  unfoldable pub first_offset : ℕ
  first_offset =
      let offset = as_int (sub64 g.pagesize (g.logical_block_size / 4)) in
      if bit_and offset (g.dma_alignment - 1) == 0
      then offset
      else as_int (sub64 g.pagesize g.dma_alignment)

  unfoldable pub first_size : ℕ
  unfolding first_offset
  first_size = sub64 g.pagesize first_offset

  -- The offset of its other vectors.
  unfoldable pub page_offset : ℕ → ℕ
  unfolding page_mult
  page_offset i = as_int (g.logical_block_size * i * 8 * page_mult)

  unfoldable pub unaligned_page_spans : List Span
  unfolding first_offset first_size page_offset page_mult
  unaligned_page_spans =
      span first_offset first_size
      ∷ (spans (λ i. span (page_offset i) (u64 (g.logical_block_size * page_mult))) 2 1
          ++ span (page_offset 3) (sub64 (u64 (g.logical_block_size * page_mult)) first_size) ∷ [])

  unfoldable pub unaligned_spans : List Span
  unaligned_spans =
      spans (λ i. span (as_int (g.logical_block_size * i * 8)) (g.logical_block_size / 2)) 4 0

  -- The valid vectors of `test_invalid_starting_addr`, and those of `test_invalid_middle_addr` at
  -- index `i`.
  unfoldable pub starting_spans : List Span
  starting_spans =
      spans (λ i. span (as_int (g.logical_block_size * i * 8)) g.logical_block_size) 3 1

  unfoldable pub middle_spans : ℕ → ℕ → List Span
  middle_spans = spans (λ i. span (as_int (g.logical_block_size * i * 2)) g.logical_block_size)

  unfoldable pub invalid_dma_span : Span
  invalid_dma_span = span (as_int (2 * g.dma_alignment - 1)) (u64 (g.logical_block_size * 256))

  unfoldable pub vector_alignment_spans : List Span
  vector_alignment_spans =
      span 0 g.max_bytes
      ∷ span (g.max_bytes * 2) g.max_bytes
      ∷ span (g.max_bytes * 4 + as_int (g.dma_alignment * 2 - 1)) g.max_bytes
      ∷ span (g.max_bytes * 6) g.max_bytes
      ∷ span (g.max_bytes * 8) g.max_bytes
      ∷ []

  -- `iov_size`, of `iovpb` vectors to a block.
  unfoldable pub iov_size : ℕ
  iov_size = g.logical_block_size / (g.logical_block_size / g.dma_alignment)

  unfoldable pub limit_spans : List Span
  unfolding iov_size
  limit_spans = spans (λ i. span (as_int (i * iov_size * 2)) iov_size) 320 0

  -- `should_fail` of `test_max_vector_limits`.
  unfoldable pub limits_should_fail : Bool
  unfolding iov_size
  limits_should_fail = not (ltb (g.pagesize / iov_size) 256 && not (ltb iov_size g.virt_boundary))

  unfoldable pub large_spans : List Span
  large_spans =
      span 0 (sub64 g.max_bytes g.logical_block_size)
      ∷ span (g.max_bytes + g.logical_block_size) g.logical_block_size
      ∷ span (g.max_bytes + g.logical_block_size + g.pagesize * 2 + (g.dma_alignment - 1))
          g.logical_block_size
      ∷ span (g.max_bytes * 8) g.logical_block_size
      ∷ []

  unfoldable pub vector_length_spans : List Span
  vector_length_spans =
      span 0 (g.max_bytes * 2 - g.max_bytes / 2)
      ∷ span (g.max_bytes * 4) (sub64 (u64 (g.logical_block_size * 2)) (g.dma_alignment + 1))
      ∷ span (g.max_bytes * 8) (u64 (g.logical_block_size * 2 + (g.dma_alignment + 1)))
      ∷ span (g.max_bytes * 12) (g.max_bytes - g.max_bytes / 2)
      ∷ []
