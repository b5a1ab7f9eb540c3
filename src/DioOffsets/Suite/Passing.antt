-- ===== src/DioOffsets/Suite/Passing.antt =====
-- A kernel that keeps files and judges vectors as the tests expect passes all of them.
pub mod Whole
pub mod Program
use ndt.Base.{ℕ, ◌+◌, ◌*◌, ◌/◌, ◌^◌, ◌≤◌, ◌<◌, ◌≡◌, refl, sym, ◌∙◌, subst, arith, inl, inr, is_neg}
use ndt.Base.{Bool, true, false, Bool-cases, ltb, lt→ltb, if◌then◌else◌, List, [], ◌∷◌, ◌++◌, map}
use ndt.Base.{All, length, IsMultiple, IsMultiple-self, IsMultiple-zero}
use ndt.DioOffsets.Globals.{Globals, Outcome, ok, fail, ◌>>=◌}
use ndt.DioOffsets.Globals.Sound.{IsSound}
use ndt.DioOffsets.Spans.{
  Span, span, page_aligned_spans, dma_aligned_spans, limit_spans, limits_should_fail, iov_size,
  invalid_dma_span, vector_alignment_spans, large_spans, vector_length_spans,
}
use ndt.DioOffsets.Spans.Alignment.{
  IsAligned, IsUnaligned, page_aligned_spans-IsAligned, dma_aligned_spans-IsAligned,
  invalid_dma_span-IsUnaligned, vector_alignment-IsUnaligned, large-IsUnaligned,
  vector_length-IsUnaligned,
}
use ndt.DioOffsets.Device.{Device, State, Buffers, from_out, into_in, Iovec, compare_spans}
use ndt.DioOffsets.Suite.{
  write_vectors, read_and_compare, transfer, transfer_if_taken, transfer_unless, refused, cleared,
  test_full_size_aligned, test_dma_aligned, test_page_aligned_vectors, test_dma_aligned_vectors,
  test_unaligned_page_vectors, test_unaligned_vectors, test_invalid_starting_addr,
  test_invalid_middle_addr, test_invalid_dma_alignment, test_invalid_dma_vector_alignment,
  test_max_vector_limits, test_invalid_dma_vector_alignment_large, test_invalid_dma_vector_length,
  run_tests, starting_vectors, middle_vectors, limit_compared,
}
use ndt.DioOffsets.Suite.Kernel.{KeepsFiles, Judges, IsSame, same_spans_complete}

abbrev pub Passes : {D : Type 0} → Outcome (State D) → Type 0
Passes {D} r = (s : State D) × (r ≡ ok s)

module _ {D : Type 0} (dev : Device D) where
  abbrev pub Refuses : List Iovec → State D → Type 0
  Refuses vectors s = is_neg (dev.write_file s.file s.buffers vectors).0 ≡ true

  abbrev pub Takes : List Iovec → State D → Type 0
  Takes vectors s = is_neg (dev.write_file s.file s.buffers vectors).0 ≡ false

  -- The state after a write.
  abbrev pub after : List Iovec → State D → State D
  after vectors s = record s { file = (dev.write_file s.file s.buffers vectors).1 }

  pub refused-Passes :
      (vectors : List Iovec) (s : State D) → Refuses vectors s → Passes (refused dev vectors s)
  unfolding refused write_vectors
  refused-Passes vectors s h = (after vectors s, rw h)

  pub transfer_unless-refused :
      (sent compared : List Span) (s : State D)
      → Refuses (map from_out sent) s
      → Passes (transfer_unless dev true sent compared s)
  unfolding transfer_unless write_vectors
  transfer_unless-refused sent compared s h = (after (map from_out sent) s, rw h)

  module _ (keeps : KeepsFiles dev) where
    -- Reading back spans that contain those compared.
    read_back :
        (compared sent : List Span) (s : State D)
        → Takes (map from_out sent) s
        → ((b : Buffers) → All (IsSame b) sent → All (IsSame b) compared)
        → Passes (read_and_compare dev sent compared (after (map from_out sent) s))
    unfolding read_and_compare compare_spans
    read_back compared sent s h part =
        let file = (dev.write_file s.file s.buffers (map from_out sent)).1 in
        let got = dev.read_file file s.buffers (map into_in sent) in
        let equal =
          same_spans_complete compared got.1 (part got.1 (keeps.same s.file s.buffers sent h)) in
        (
          record { file = got.2; buffers = got.1 },
          rw (keeps.reads s.file s.buffers sent h) (rw equal),
        )

    pub transfer-Passes :
        (sent : List Span) (s : State D)
        → Takes (map from_out sent) s
        → Passes (transfer dev sent s)
    transfer-Passes sent s h =
        let (s', e) = read_back sent sent s h (λ b a. a) in
        (s', unfold transfer write_vectors in (rw h e))

    pub transfer_if_taken-Passes :
        (sent : List Span) (s : State D) → Passes (transfer_if_taken dev sent s)
    transfer_if_taken-Passes sent s =
        elim (Bool-cases (is_neg (dev.write_file s.file s.buffers (map from_out sent)).0)) [
          | inl h ↦ (after (map from_out sent) s, unfold transfer_if_taken write_vectors in (rw h))
          | inr h ↦
              let (s', e) = read_back sent sent s h (λ b a. a) in
              (s', unfold transfer_if_taken write_vectors in (rw h e))
        ]

    pub transfer_unless-taken :
        (compared sent : List Span) (s : State D)
        → Takes (map from_out sent) s
        → ((b : Buffers) → All (IsSame b) sent → All (IsSame b) compared)
        → Passes (transfer_unless dev false sent compared s)
    transfer_unless-taken compared sent s h part =
        let (s', e) = read_back compared sent s h part in
        (s', unfold transfer_unless write_vectors in (rw h e))

-- What the test of the vector limits compares was read: where the write should not fail, its vectors
-- are at least as long as the half blocks that are compared.
abbrev pub ComparesRead : Globals → Type 0
ComparesRead g = limits_should_fail g ≡ false → g.logical_block_size / 2 ≤ iov_size g

-- What the test of the vector limits expects of the kernel: the write is refused where it should fail,
-- and else it is taken.
pub record JudgesLimits {D : Type 0} (dev : Device D) (g : Globals) : Type 0 where
  pub refuses_limits :
      (d : D) (b : Buffers)
      → limits_should_fail g ≡ true
      → is_neg (dev.write_file d b (map from_out (limit_spans g))).0 ≡ true
  pub takes_limits :
      (d : D) (b : Buffers)
      → limits_should_fail g ≡ false
      → is_neg (dev.write_file d b (map from_out (limit_spans g))).0 ≡ false
