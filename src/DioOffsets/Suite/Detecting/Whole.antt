-- ===== src/DioOffsets/Suite/Detecting/Whole.antt =====
-- What a run of all tests that finds nothing has seen.
use ndt.Base.{◌<◌, ◌≡◌, true, [], ◌∷◌, map}
use ndt.DioOffsets.Globals.{Globals, ok}
use ndt.DioOffsets.Spans.{
  span, page_aligned_spans, dma_aligned_spans, invalid_dma_span, vector_alignment_spans,
  limit_spans, limits_should_fail, large_spans, vector_length_spans,
}
use ndt.DioOffsets.Device.{Device, State, from_out}
use ndt.DioOffsets.Suite.{
  cleared, run_tests, starting_vectors, middle_vectors, test_full_size_aligned, test_dma_aligned,
  test_page_aligned_vectors, test_dma_aligned_vectors, test_unaligned_page_vectors,
  test_unaligned_vectors, test_invalid_starting_addr, test_invalid_middle_addr,
  test_invalid_dma_alignment, test_invalid_dma_vector_alignment, test_max_vector_limits,
  test_invalid_dma_vector_alignment_large, test_invalid_dma_vector_length,
}
use ndt.DioOffsets.Suite.Passing.{Refuses}
use ndt.DioOffsets.Suite.Detecting.{
  chained, Seen, full_size_sound, dma_aligned_sound, page_vectors_sound, dma_vectors_sound,
  starting_null_sound, middle_null_sound, unaligned_base_sound, unaligned_vector_sound,
  too_many_sound, unaligned_late_sound, unaligned_length_sound,
}

-- What the tests have seen on the way from one state to another: the states are those that the tests
-- have left one after another, and each test has seen what it is there to see.
pub record IsVerified {D : Type 0} (dev : Device D) (g : Globals) (s0 s13 : State D) : Type 0 where
  pub s1 : State D
  pub s2 : State D
  pub s3 : State D
  pub s4 : State D
  pub s5 : State D
  pub s6 : State D
  pub s7 : State D
  pub s8 : State D
  pub s9 : State D
  pub s10 : State D
  pub s11 : State D
  pub s12 : State D
  pub full_size_run : test_full_size_aligned dev g s0 ≡ ok s1
  pub dma_aligned_run : test_dma_aligned dev g s1 ≡ ok s2
  pub page_vectors_run : test_page_aligned_vectors dev g s2 ≡ ok s3
  pub dma_vectors_run : test_dma_aligned_vectors dev g s3 ≡ ok s4
  pub page_offsets_run : test_unaligned_page_vectors dev g s4 ≡ ok s5
  pub unaligned_run : test_unaligned_vectors dev g s5 ≡ ok s6
  pub starting_null_run : test_invalid_starting_addr dev g s6 ≡ ok s7
  pub middle_null_run : test_invalid_middle_addr dev g s7 ≡ ok s8
  pub unaligned_base_run : test_invalid_dma_alignment dev g s8 ≡ ok s9
  pub unaligned_vector_run : test_invalid_dma_vector_alignment dev g s9 ≡ ok s10
  pub too_many_run : test_max_vector_limits dev g s10 ≡ ok s11
  pub unaligned_late_run : test_invalid_dma_vector_alignment_large dev g s11 ≡ ok s12
  pub unaligned_length_run : test_invalid_dma_vector_length dev g s12 ≡ ok s13
  pub full_size : Seen dev (span 0 g.buf_size ∷ []) (cleared dev g s0) s1
  pub dma_aligned : Seen dev (span g.dma_alignment g.max_bytes ∷ []) (cleared dev g s1) s2
  pub page_vectors : Seen dev (page_aligned_spans g) (cleared dev g s2) s3
  pub dma_vectors : Seen dev (dma_aligned_spans g) (cleared dev g s3) s4
  pub starting_null : Refuses dev (starting_vectors dev g) s6
  pub middle_null : Refuses dev (middle_vectors dev g) s7
  pub unaligned_base :
      1 < g.dma_alignment → Refuses dev (map from_out (invalid_dma_span g ∷ [])) (cleared dev g s8)
  pub unaligned_vector :
      1 < g.dma_alignment → Refuses dev (map from_out (vector_alignment_spans g)) (cleared dev g s9)
  pub too_many :
      limits_should_fail g ≡ true → Refuses dev (map from_out (limit_spans g)) (cleared dev g s10)
  pub unaligned_late : Refuses dev (map from_out (large_spans g)) s11
  pub unaligned_length :
      1 < g.dma_alignment → Refuses dev (map from_out (vector_length_spans g)) s12

module _ {D : Type 0} (dev : Device D) (g : Globals) where
  -- When all tests pass, then on the way the four transfers of aligned bytes were taken and came back
  -- byte for byte, the vectors with a null address were refused and so were those of the late
  -- poisoned test, and, for an alignment above 1, those with an unaligned address or length; those
  -- of the vector limits were refused where the test says that they should fail.
  pub run_tests-IsVerified : (s s' : State D) → run_tests dev g s ≡ ok s' → IsVerified dev g s s'
  unfolding run_tests
  run_tests-IsVerified s0 s13 h0 = chained (test_full_size_aligned dev g s0) _ _ h0 λ s1 e1 h1.
      chained (test_dma_aligned dev g s1) _ _ h1 λ s2 e2 h2.
        chained (test_page_aligned_vectors dev g s2) _ _ h2 λ s3 e3 h3.
          chained (test_dma_aligned_vectors dev g s3) _ _ h3 λ s4 e4 h4.
            chained (test_unaligned_page_vectors dev g s4) _ _ h4 λ s5 e5 h5.
              chained (test_unaligned_vectors dev g s5) _ _ h5 λ s6 e6 h6.
                chained (test_invalid_starting_addr dev g s6) _ _ h6 λ s7 e7 h7.
                  chained (test_invalid_middle_addr dev g s7) _ _ h7 λ s8 e8 h8.
                    chained (test_invalid_dma_alignment dev g s8) _ _ h8 λ s9 e9 h9.
                      chained (test_invalid_dma_vector_alignment dev g s9) _ _ h9 λ s10 e10 h10.
                        chained (test_max_vector_limits dev g s10) _ _ h10 λ s11 e11 h11.
                          chained (test_invalid_dma_vector_alignment_large dev g s11) _ _ h11
                            λ s12 e12 h12. record {
                              s1 = s1;
                              s2 = s2;
                              s3 = s3;
                              s4 = s4;
                              s5 = s5;
                              s6 = s6;
                              s7 = s7;
                              s8 = s8;
                              s9 = s9;
                              s10 = s10;
                              s11 = s11;
                              s12 = s12;
                              full_size_run = e1;
                              dma_aligned_run = e2;
                              page_vectors_run = e3;
                              dma_vectors_run = e4;
                              page_offsets_run = e5;
                              unaligned_run = e6;
                              starting_null_run = e7;
                              middle_null_run = e8;
                              unaligned_base_run = e9;
                              unaligned_vector_run = e10;
                              too_many_run = e11;
                              unaligned_late_run = e12;
                              unaligned_length_run = h12;
                              full_size = full_size_sound dev g s0 s1 e1;
                              dma_aligned = dma_aligned_sound dev g s1 s2 e2;
                              page_vectors = page_vectors_sound dev g s2 s3 e3;
                              dma_vectors = dma_vectors_sound dev g s3 s4 e4;
                              starting_null = starting_null_sound dev g s6 s7 e7;
                              middle_null = middle_null_sound dev g s7 s8 e8;
                              unaligned_base = unaligned_base_sound dev g s8 s9 e9;
                              unaligned_vector = unaligned_vector_sound dev g s9 s10 e10;
                              too_many = too_many_sound dev g s10 s11 e11;
                              unaligned_late = unaligned_late_sound dev g s11 s12 e12;
                              unaligned_length = unaligned_length_sound dev g s12 s13 h12;
                            }
