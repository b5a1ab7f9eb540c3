-- ===== src/DioOffsets/Suite.antt =====
-- The tests of dio-offsets.c, `run_tests` and `main`.
pub mod Kernel
pub mod Passing
pub mod Detecting
pub mod Flaws
use ndt.Base.{
  ℕ, ◌+◌, ◌/◌, ◌<◌, ℤ, is_neg, Bool, ltb, true, if◌then◌else◌, fill, List, [], ◌∷◌, ◌++◌, map,
}
use ndt.DioOffsets.Globals.{
  Globals, System, init_args, init_buffers, Outcome, ok, fail, ◌>>=◌, write_failed, read_failed,
  accepted_invalid, usage,
}
use ndt.DioOffsets.Spans.{
  Span, span, page_aligned_spans, dma_aligned_spans, unaligned_page_spans, unaligned_spans,
  starting_spans, middle_spans, invalid_dma_span, vector_alignment_spans, limit_spans,
  limits_should_fail, large_spans, vector_length_spans,
}
use ndt.DioOffsets.Device.{null, Iovec, from_out, into_in, Device, State, compare_spans}

module _ {D : Type 0} (dev : Device D) where
  -- A `pwrite` or `pwritev`: what it returns, and the file after it.
  unfoldable pub write_vectors : List Iovec → State D → ℤ × State D
  write_vectors vectors s =
      let (ret, file) = dev.write_file s.file s.buffers vectors in (ret, record s { file = file })

  unfoldable pub read_and_compare : List Span → List Span → State D → Outcome (State D)
  read_and_compare spans compared s =
      let (ret, buffers, file) = dev.read_file s.file s.buffers (map into_in spans) in
      if is_neg ret
      then fail read_failed
      else compare_spans compared (record { file = file; buffers = buffers })

  -- The tests where nothing may fail.
  unfoldable pub transfer : List Span → State D → Outcome (State D)
  unfolding write_vectors read_and_compare
  transfer spans s =
      let (ret, written) = write_vectors (map from_out spans) s in
      if is_neg ret then fail write_failed else read_and_compare spans spans written

  -- The tests whose write may fail.
  unfoldable pub transfer_if_taken : List Span → State D → Outcome (State D)
  unfolding write_vectors read_and_compare
  transfer_if_taken spans s =
      let (ret, written) = write_vectors (map from_out spans) s in
      if is_neg ret then ok written else read_and_compare spans spans written

  -- The tests that tell beforehand whether the write has to fail.
  unfoldable pub transfer_unless : Bool → List Span → List Span → State D → Outcome (State D)
  unfolding write_vectors read_and_compare
  transfer_unless should_fail spans compared s =
      let (ret, written) = write_vectors (map from_out spans) s in
      if is_neg ret
      then (if should_fail then ok written else fail write_failed)
      else (if should_fail then fail accepted_invalid else read_and_compare spans compared written)

  -- The tests whose write has to fail.
  unfoldable pub refused : List Iovec → State D → Outcome (State D)
  unfolding write_vectors
  refused vectors s =
      let (ret, written) = write_vectors vectors s in
      if is_neg ret then ok written else fail accepted_invalid

module _ {D : Type 0} (dev : Device D) (g : Globals) where
  -- `memset(in_buf, 0, buf_size)`.
  unfoldable pub cleared : State D → State D
  cleared s = record s {
    buffers = record (s.buffers) { in_mem = fill g.buf_size 0 0 (λ j. 0) (s.buffers).in_mem };
  }

  unfoldable pub test_full_size_aligned : State D → Outcome (State D)
  unfolding cleared transfer
  test_full_size_aligned s = transfer dev (span 0 g.buf_size ∷ []) (cleared s)

  unfoldable pub test_dma_aligned : State D → Outcome (State D)
  unfolding cleared transfer
  test_dma_aligned s = transfer dev (span g.dma_alignment g.max_bytes ∷ []) (cleared s)

  unfoldable pub test_page_aligned_vectors : State D → Outcome (State D)
  unfolding cleared transfer
  test_page_aligned_vectors s = transfer dev (page_aligned_spans g) (cleared s)

  unfoldable pub test_dma_aligned_vectors : State D → Outcome (State D)
  unfolding cleared transfer
  test_dma_aligned_vectors s = transfer dev (dma_aligned_spans g) (cleared s)

  unfoldable pub test_unaligned_page_vectors : State D → Outcome (State D)
  unfolding cleared transfer_if_taken
  test_unaligned_page_vectors s = transfer_if_taken dev (unaligned_page_spans g) (cleared s)

  unfoldable pub test_unaligned_vectors : State D → Outcome (State D)
  unfolding cleared transfer_if_taken
  test_unaligned_vectors s = transfer_if_taken dev (unaligned_spans g) (cleared s)

  unfoldable pub starting_vectors : List Iovec
  starting_vectors =
      record { iov_base = null; iov_len = g.logical_block_size } ∷ map from_out (starting_spans g)

  unfoldable pub test_invalid_starting_addr : State D → Outcome (State D)
  unfolding refused starting_vectors
  test_invalid_starting_addr s = refused dev starting_vectors s

  unfoldable pub middle_vectors : List Iovec
  middle_vectors =
      map from_out (middle_spans g 513 0)
      ++ record { iov_base = null; iov_len = g.logical_block_size }
        ∷ map from_out (middle_spans g 510 514)

  unfoldable pub test_invalid_middle_addr : State D → Outcome (State D)
  unfolding refused middle_vectors
  test_invalid_middle_addr s = refused dev middle_vectors s

  unfoldable pub test_invalid_dma_alignment : State D → Outcome (State D)
  unfolding cleared transfer_unless
  test_invalid_dma_alignment s =
      let spans = invalid_dma_span g ∷ [] in
      transfer_unless dev (ltb 1 g.dma_alignment) spans spans (cleared s)

  unfoldable pub test_invalid_dma_vector_alignment : State D → Outcome (State D)
  unfolding cleared transfer_unless
  test_invalid_dma_vector_alignment s =
      let spans = vector_alignment_spans g in
      transfer_unless dev (ltb 1 g.dma_alignment) spans spans (cleared s)

  -- Half a block is compared at each vector, whatever its length.
  unfoldable pub limit_compared : List Span
  limit_compared = map (λ s. span s.offset (g.logical_block_size / 2)) (limit_spans g)

  unfoldable pub test_max_vector_limits : State D → Outcome (State D)
  unfolding cleared transfer_unless limit_compared
  test_max_vector_limits s =
      transfer_unless dev (limits_should_fail g) (limit_spans g) limit_compared (cleared s)

  unfoldable pub test_invalid_dma_vector_alignment_large : State D → Outcome (State D)
  unfolding refused
  test_invalid_dma_vector_alignment_large s = refused dev (map from_out (large_spans g)) s

  -- The second part of the test: `in_buf` is written, where it is meant to be read into.
  unfoldable pub write_back : State D → Outcome (State D)
  unfolding write_vectors
  write_back s =
      let (ret, written) = write_vectors dev (map into_in (vector_length_spans g)) s in
      if is_neg ret then fail read_failed else compare_spans (vector_length_spans g) written

  unfoldable pub test_invalid_dma_vector_length : State D → Outcome (State D)
  unfolding write_vectors write_back
  test_invalid_dma_vector_length s =
      let (ret, written) = write_vectors dev (map from_out (vector_length_spans g)) s in
      if is_neg ret
      then (if ltb 1 g.dma_alignment then ok written else fail write_failed)
      else (if ltb 1 g.dma_alignment then fail accepted_invalid else write_back written)

  unfoldable pub run_tests : State D → Outcome (State D)
  run_tests s0 = do
    s1 ← test_full_size_aligned s0
    s2 ← test_dma_aligned s1
    s3 ← test_page_aligned_vectors s2
    s4 ← test_dma_aligned_vectors s3
    s5 ← test_unaligned_page_vectors s4
    s6 ← test_unaligned_vectors s5
    s7 ← test_invalid_starting_addr s6
    s8 ← test_invalid_middle_addr s7
    s9 ← test_invalid_dma_alignment s8
    s10 ← test_invalid_dma_vector_alignment s9
    s11 ← test_max_vector_limits s10
    s12 ← test_invalid_dma_vector_alignment_large s11
    test_invalid_dma_vector_length s12

-- The program on a file, with what was read into `out_buf`; it returns 0 unless it fails.
unfoldable pub main : {D : Type 0} → Device D → System → State D → Outcome (State D)
main dev sys s =
    if ltb sys.argc 2
    then fail usage
    else (do args ← init_args sys; g ← init_buffers sys args; run_tests dev g s)
