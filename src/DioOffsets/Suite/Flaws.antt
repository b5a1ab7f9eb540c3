-- ===== src/DioOffsets/Suite/Flaws.antt =====
-- Where the tests judge devices in a way that they do not mean to.
pub mod Limits
use ndt.Base.{ℕ, zero, suc, ◌+◌, ◌-◌, ◌*◌, ◌/◌, ◌^◌, ◌≤◌, ◌<◌, ◌≡◌, refl, sym, subst, arith, is_neg}
use ndt.Base.{
  Bool, true, false, ltb, if◌then◌else◌, List, [], ◌∷◌, ◌++◌, map, All, length, Bool-cases, inl,
  inr,
}
use ndt.Base.{IsMultiple, IsMultiple-self}
use ndt.DioOffsets.Words.{u64, sub64}
use ndt.DioOffsets.Globals.{Globals, Outcome, ok, fail, read_failed, write_failed, accepted_invalid}
use ndt.DioOffsets.Globals.Sound.{IsSound}
use ndt.DioOffsets.Spans.{Span, span, large_spans, vector_length_spans}
use ndt.DioOffsets.Spans.Alignment.{IsAligned}
use ndt.DioOffsets.Device.{Device, State, Buffers, from_out, into_in, compare_spans, same_spans}
use ndt.DioOffsets.Suite.{write_vectors, write_back, test_invalid_dma_vector_length, run_tests}
use ndt.DioOffsets.Suite.Kernel.{Judges, IsSame, same_spans_sound}
use ndt.DioOffsets.Suite.Passing.{Passes, Refuses}
use ndt.DioOffsets.Suite.Detecting.Whole.{IsVerified, run_tests-IsVerified}

module _ {D : Type 0} (dev : Device D) (g : Globals) where
  -- One multiple less than another.
  less_block : (lb m : ℕ) → IsMultiple lb m → lb ≤ m → m ≤ 2 ^ 24 → IsMultiple lb (sub64 m lb)
  less_block lb m (zero, e) h l = (0, omega (arith, e))
  less_block lb m (suc q, e) h l = (q, omega (arith, e))

  -- With a byte-aligned device, the vectors of the late poisoned test are aligned.
  large-IsAligned :
      IsSound g
      → g.dma_alignment ≡ 1
      → g.logical_block_size ≤ g.max_bytes
      → All (IsAligned g) (large_spans g)
  unfolding large_spans
  large-IsAligned sound one fits = (
    (
      byte 0,
      less_block g.logical_block_size g.max_bytes sound.bytes_whole fits sound.bytes_limited,
    ),
    ((byte _, block), ((byte _, block), ((byte _, block), tt))),
  )
    where
      byte : (n : ℕ) → IsMultiple g.dma_alignment n
      byte n = (n, grind (arith, one))

      block : IsMultiple g.logical_block_size g.logical_block_size
      block = IsMultiple-self g.logical_block_size

  -- With sound globals whose alignment is 1 and whose largest transfer holds a block, no kernel that
  -- takes up to five aligned vectors passes all tests.
  pub byte_aligned_fails :
      IsSound g
      → g.dma_alignment ≡ 1
      → g.logical_block_size ≤ g.max_bytes
      → Judges dev g
      → (s : State D) → ¬ Passes (run_tests dev g s)
  byte_aligned_fails sound one fits judges s (s', passed) =
      let seen = run_tests-IsVerified dev g s s' passed in
      let refused = seen.unaligned_late in
      let taken =
        judges.takes (seen.s11).file (seen.s11).buffers (large_spans g)
          (unfold large_spans in omega arith) (large-IsAligned sound one fits) in
      grind (arith, refused, taken)

  write_back_old :
      (s s' : State D) → write_back dev g s ≡ ok s' → All (IsSame s.buffers) (vector_length_spans g)
  unfolding write_back write_vectors compare_spans
  write_back_old s s' h = elim (Bool-cases (same_spans (vector_length_spans g) s.buffers)) [
    | inl same ↦ same_spans_sound (vector_length_spans g) s.buffers same
    | inr differ ↦ absurd (ground (arith, differ))
  ]

  -- With an alignment of 1, the test of vector lengths passes only if the second buffer held the same
  -- bytes as the first at the vectors before the test began: nothing is read into it.
  pub vector_length_old :
      (s s' : State D)
      → g.dma_alignment ≡ 1
      → test_invalid_dma_vector_length dev g s ≡ ok s'
      → All (IsSame s.buffers) (vector_length_spans g)
  unfolding test_invalid_dma_vector_length write_vectors
  vector_length_old s s' one h =
      let file = (dev.write_file s.file s.buffers (map from_out (vector_length_spans g))).1 in
      let smooth : ltb 1 g.dma_alignment ≡ false = ground arith in
      write_back_old (record s { file = file }) s' (ground (arith, smooth))
