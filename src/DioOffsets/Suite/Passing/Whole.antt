-- ===== src/DioOffsets/Suite/Passing/Whole.antt =====
-- All tests, one after another.
use ndt.Base.{ℕ, ◌+◌, ◌-◌, ◌*◌, ◌/◌, ◌^◌, ◌≤◌, ◌<◌, ◌≡◌, arith, inl, inr}
use ndt.Base.{true, false, Bool-cases, ltb, lt→ltb, List, [], ◌∷◌, map}
use ndt.Base.{All, IsMultiple, IsMultiple-self, IsMultiple-zero}
use ndt.DioOffsets.Words.{u64, sub64, as_int}
use ndt.DioOffsets.Globals.{Globals}
use ndt.DioOffsets.Globals.Sound.{IsSound}
use ndt.DioOffsets.Spans.{
  Span, span, page_aligned_spans, dma_aligned_spans, unaligned_page_spans, unaligned_spans,
  invalid_dma_span, vector_alignment_spans, limit_spans, limits_should_fail, large_spans,
  vector_length_spans,
}
use ndt.DioOffsets.Spans.Alignment.{
  page_aligned_spans-IsAligned, dma_aligned_spans-IsAligned, All-spans, length-spans,
  invalid_dma_span-IsUnaligned, vector_alignment-IsUnaligned, large-IsUnaligned,
  vector_length-IsUnaligned,
}
use ndt.DioOffsets.Device.{Device, State, Buffers, from_out}
use ndt.DioOffsets.Suite.{
  cleared, write_vectors, test_full_size_aligned, test_dma_aligned, test_page_aligned_vectors,
  test_dma_aligned_vectors, test_unaligned_page_vectors, test_unaligned_vectors,
  test_invalid_starting_addr, test_invalid_middle_addr, test_invalid_dma_alignment,
  test_invalid_dma_vector_alignment, test_max_vector_limits,
  test_invalid_dma_vector_alignment_large, test_invalid_dma_vector_length, run_tests,
  starting_vectors, middle_vectors, limit_compared,
}
use ndt.DioOffsets.Suite.Kernel.{KeepsFiles, Judges, IsSame}
use ndt.DioOffsets.Suite.Passing.{
  Passes, Refuses, after, refused-Passes, transfer_unless-refused, transfer-Passes,
  transfer_if_taken-Passes, transfer_unless-taken, JudgesLimits, ComparesRead,
}

-- A part of each span is compared.
shorter_same :
    (half : ℕ) (b : Buffers) (sent : List Span)
    → All (λ s. half ≤ s.size) sent
    → All (IsSame b) sent
    → All (IsSame b) (map (λ s. span s.offset half) sent)
shorter_same half b [] h same = tt
shorter_same half b (s ∷ sent) h same =
    (λ j l. same.0 j (omega (arith, h.0)), shorter_same half b sent h.1 same.1)

module _ {D : Type 0} (dev : Device D) (g : Globals) (sound : IsSound g)
    (small : g.logical_block_size ≤ 2 ^ 20) (keeps : KeepsFiles dev) (judges : Judges dev g) where
  full_size-Passes :
      IsMultiple g.logical_block_size g.buf_size
      → (s : State D) → Passes (test_full_size_aligned dev g s)
  unfolding test_full_size_aligned
  full_size-Passes whole s = transfer-Passes dev keeps (span 0 g.buf_size ∷ []) (cleared dev g s) (
      judges.takes _ _ (span 0 g.buf_size ∷ []) (omega arith)
        ((IsMultiple-zero g.dma_alignment, whole), tt))

  dma_aligned-Passes : (s : State D) → Passes (test_dma_aligned dev g s)
  unfolding test_dma_aligned
  dma_aligned-Passes s =
      transfer-Passes dev keeps (span g.dma_alignment g.max_bytes ∷ []) (cleared dev g s) (
        judges.takes _ _ (span g.dma_alignment g.max_bytes ∷ []) (omega arith)
          ((IsMultiple-self g.dma_alignment, sound.bytes_whole), tt))

  page_vectors-Passes : (s : State D) → Passes (test_page_aligned_vectors dev g s)
  unfolding test_page_aligned_vectors
  page_vectors-Passes s = transfer-Passes dev keeps (page_aligned_spans g) (cleared dev g s) (
      judges.takes _ _ (page_aligned_spans g)
        (unfold page_aligned_spans in omega (arith, length-spans _ 4 0))
        (page_aligned_spans-IsAligned g sound small))

  dma_vectors-Passes : (s : State D) → Passes (test_dma_aligned_vectors dev g s)
  unfolding test_dma_aligned_vectors
  dma_vectors-Passes s = transfer-Passes dev keeps (dma_aligned_spans g) (cleared dev g s) (
      judges.takes _ _ (dma_aligned_spans g)
        (unfold dma_aligned_spans in omega (arith, length-spans _ 4 0))
        (dma_aligned_spans-IsAligned g sound small))

  unaligned_pages-Passes : (s : State D) → Passes (test_unaligned_page_vectors dev g s)
  unfolding test_unaligned_page_vectors
  unaligned_pages-Passes s =
      transfer_if_taken-Passes dev keeps (unaligned_page_spans g) (cleared dev g s)

  unaligned-Passes : (s : State D) → Passes (test_unaligned_vectors dev g s)
  unfolding test_unaligned_vectors
  unaligned-Passes s = transfer_if_taken-Passes dev keeps (unaligned_spans g) (cleared dev g s)

  starting-Passes : (s : State D) → Passes (test_invalid_starting_addr dev g s)
  unfolding test_invalid_starting_addr starting_vectors
  starting-Passes s = refused-Passes dev _ s (judges.refuses_null _ _ [] _)

  middle-Passes : (s : State D) → Passes (test_invalid_middle_addr dev g s)
  unfolding test_invalid_middle_addr middle_vectors
  middle-Passes s = refused-Passes dev _ s (judges.refuses_null _ _ _ _)

  limits-Passes :
      ComparesRead g → JudgesLimits dev g → (s : State D) → Passes (test_max_vector_limits dev g s)
  unfolding test_max_vector_limits limit_compared
  limits-Passes long_enough limits s = elim (Bool-cases (limits_should_fail g)) [
    | inl f ↦ rw f (
        transfer_unless-refused dev (limit_spans g) (limit_compared dev g) (cleared dev g s)
          (limits.refuses_limits _ _ f))
    | inr f ↦ rw f (
        transfer_unless-taken dev keeps (limit_compared dev g) (limit_spans g) (cleared dev g s)
          (limits.takes_limits _ _ f)
          (λ b same. shorter_same (g.logical_block_size / 2) b (limit_spans g) (long f) same))
  ]
    where
      long :
          limits_should_fail g ≡ false
          → All (λ s. g.logical_block_size / 2 ≤ s.size) (limit_spans g)
      long f = unfold limit_spans in All-spans _ _ 320 0 (λ k a b. long_enough f)

  module _ (rough : 1 < g.dma_alignment) where
    should_fail : ltb 1 g.dma_alignment ≡ true
    should_fail = lt→ltb _ _ rough

    alignment-Passes : (s : State D) → Passes (test_invalid_dma_alignment dev g s)
    unfolding test_invalid_dma_alignment
    alignment-Passes s = rw should_fail (
        transfer_unless-refused dev (invalid_dma_span g ∷ []) (invalid_dma_span g ∷ [])
          (cleared dev g s)
          (judges.refuses_unaligned _ _ [] (invalid_dma_span g) []
            (inl (invalid_dma_span-IsUnaligned g sound small rough))))

    vector_alignment-Passes : (s : State D) → Passes (test_invalid_dma_vector_alignment dev g s)
    unfolding test_invalid_dma_vector_alignment
    vector_alignment-Passes s = rw should_fail (
        transfer_unless-refused dev (vector_alignment_spans g) (vector_alignment_spans g)
          (cleared dev g s) third)
      where
        m : ℕ
        m = g.max_bytes

        third : Refuses dev (map from_out (vector_alignment_spans g)) (cleared dev g s)
        third =
            unfold vector_alignment_spans in
            judges.refuses_unaligned _ _ (span 0 m ∷ span (m * 2) m ∷ [])
              (span (m * 4 + as_int (g.dma_alignment * 2 - 1)) m)
              (span (m * 6) m ∷ span (m * 8) m ∷ [])
              (inl (vector_alignment-IsUnaligned g sound small rough))

    large-Passes :
        IsMultiple g.dma_alignment g.pagesize
        → (s : State D) → Passes (test_invalid_dma_vector_alignment_large dev g s)
    unfolding test_invalid_dma_vector_alignment_large
    large-Passes page s = refused-Passes dev (map from_out (large_spans g)) s third
      where
        m : ℕ
        m = g.max_bytes

        lb : ℕ
        lb = g.logical_block_size

        third : Refuses dev (map from_out (large_spans g)) s
        third =
            unfold large_spans in
            judges.refuses_unaligned _ _ (span 0 (sub64 m lb) ∷ span (m + lb) lb ∷ [])
              (span (m + lb + g.pagesize * 2 + (g.dma_alignment - 1)) lb) (span (m * 8) lb ∷ [])
              (inl (large-IsUnaligned g sound small page rough))

    vector_length-Passes : (s : State D) → Passes (test_invalid_dma_vector_length dev g s)
    vector_length-Passes s = (
      after dev (map from_out (vector_length_spans g)) s,
      unfold test_invalid_dma_vector_length write_vectors in (rw second (rw should_fail)),
    )
      where
        m : ℕ
        m = g.max_bytes

        lb : ℕ
        lb = g.logical_block_size

        second : Refuses dev (map from_out (vector_length_spans g)) s
        second =
            unfold vector_length_spans in
            judges.refuses_unaligned s.file s.buffers (span 0 (m * 2 - m / 2) ∷ [])
              (span (m * 4) (sub64 (u64 (lb * 2)) (g.dma_alignment + 1)))
              (span (m * 8) (u64 (lb * 2 + (g.dma_alignment + 1))) ∷ span (m * 12) (m - m / 2) ∷ [])
              (inr (vector_length-IsUnaligned g sound small rough))

    -- If the kernel gives back what it took, refuses null and unaligned vectors, takes up to five
    -- aligned ones and judges the vector limits as the test expects, then all tests pass, for sound
    -- globals where that test compares only bytes that it has read, with blocks of at most 1 MiB, an
    -- alignment above 1 that divides the page size, and buffers of whole blocks.
    pub run_tests-Passes :
        IsMultiple g.dma_alignment g.pagesize
        → IsMultiple g.logical_block_size g.buf_size
        → ComparesRead g
        → JudgesLimits dev g
        → (s : State D) → Passes (run_tests dev g s)
    unfolding run_tests
    run_tests-Passes page whole long_enough limits s0 =
        let (s1, e1) = full_size-Passes whole s0 in
        let (s2, e2) = dma_aligned-Passes s1 in
        let (s3, e3) = page_vectors-Passes s2 in
        let (s4, e4) = dma_vectors-Passes s3 in
        let (s5, e5) = unaligned_pages-Passes s4 in
        let (s6, e6) = unaligned-Passes s5 in
        let (s7, e7) = starting-Passes s6 in
        let (s8, e8) = middle-Passes s7 in
        let (s9, e9) = alignment-Passes s8 in
        let (s10, e10) = vector_alignment-Passes s9 in
        let (s11, e11) = limits-Passes long_enough limits s10 in
        let (s12, e12) = large-Passes page s11 in
        let (s13, e13) = vector_length-Passes s12 in
        (s13, rw (e1, e2, e3, e4, e5, e6, e7, e8, e9, e10, e11, e12, e13))
