-- ===== src/DioOffsets/Suite/Flaws/Limits.antt =====
-- The test of the vector limits compares more bytes than its vectors have.
use ndt.Base.{
  ℤ, ℕ, zero, suc, ◌+◌, ◌*◌, ◌/◌, ◌^◌, ◌≤◌, ◌<◌, ◌≡◌, ◌⊎◌, refl, arith, is_neg, inl, inr,
}
use ndt.Base.{true, false, Bool-cases, List, map, All, fill_inside}
use ndt.DioOffsets.Words.{as_int}
use ndt.DioOffsets.Globals.{Globals, fail, corrupted}
use ndt.DioOffsets.Spans.{Span, spans, iov_size, limit_spans, limits_should_fail}
use ndt.DioOffsets.Spans.Alignment.{All-spans}
use ndt.DioOffsets.Device.{Device, State, Buffers, from_out, into_in, compare_spans, same_spans}
use ndt.DioOffsets.Suite.{
  write_vectors, read_and_compare, transfer_unless, cleared, limit_compared, test_max_vector_limits,
}
use ndt.DioOffsets.Suite.Kernel.{same_spans_sound}
use ndt.DioOffsets.Suite.Passing.{Takes}

-- A read changes no byte of the second buffer outside its vectors, and none of the first.
pub record ReadsInto {D : Type 0} (dev : Device D) : Type 0 where
  pub outside :
      (d : D) (b : Buffers) (sent : List Span) (a : ℕ)
      → All (λ s. (a < s.offset) ⊎ (s.offset + s.size ≤ a)) sent
      → (dev.read_file d b (map into_in sent)).1.in_mem a ≡ b.in_mem a
  pub source :
      (d : D) (b : Buffers) (sent : List Span) (a : ℕ)
      → (dev.read_file d b (map into_in sent)).1.out_mem a ≡ b.out_mem a

module _ (g : Globals) (small : iov_size g ≤ 2 ^ 20) where
  -- A byte between the first two vectors.
  between :
      (a : ℕ)
      → iov_size g ≤ a
      → a < 2 * iov_size g
      → All (λ s. (a < s.offset) ⊎ (s.offset + s.size ≤ a)) (limit_spans g)
  unfolding limit_spans
  between a low high = All-spans _ _ 320 0 (λ i p l. apart i l)
    where
      offset-eq : (i : ℕ) → i < 320 → as_int (i * iov_size g * 2) ≡ i * iov_size g * 2
      offset-eq i l =
          let fits : i * iov_size g ≤ 320 * 2 ^ 20 = grind (arith, small) in ground (arith, fits)

      apart :
          (i : ℕ)
          → i < 320
          → (a < as_int (i * iov_size g * 2)) ⊎ (as_int (i * iov_size g * 2) + iov_size g ≤ a)
      apart zero l = inr (rw (offset-eq 0 l) (omega (arith, low)))
      apart (suc i) l = inl (rw (offset-eq (suc i) l) (omega (arith, high)))

module _ {D : Type 0} (dev : Device D) (g : Globals) (reads_into : ReadsInto dev)
    (s : State D) where
  -- The cleared state after the write.
  abbrev pub sent : State D
  sent = record (cleared dev g s) {
    file = (dev.write_file s.file (cleared dev g s).buffers (map from_out (limit_spans g))).1;
  }

  -- What is then read back.
  abbrev pub got : ℤ × Buffers × D
  got = dev.read_file sent.file sent.buffers (map into_in (limit_spans g))

  gap_kept :
      iov_size g ≤ 2 ^ 20
      → (a : ℕ) → iov_size g ≤ a
      → a < 2 * iov_size g
      → a < g.buf_size
      → got.1.in_mem a ≡ 0
  unfolding cleared
  gap_kept small a low high inside =
      let kept =
        reads_into.outside sent.file sent.buffers (limit_spans g) a (between g small a low high) in
      let zero_there =
        fill_inside g.buf_size 0 0 (λ j. 0) (s.buffers).in_mem a (omega arith) (omega arith) in
      grind (arith, kept, zero_there)

  -- What a successful comparison says of the first vector.
  first_same :
      same_spans (limit_compared dev g) got.1 ≡ true
      → (a : ℕ) → a < g.logical_block_size / 2
      → got.1.out_mem a ≡ got.1.in_mem a
  unfolding limit_compared limit_spans spans
  first_same same a half =
      let first = (same_spans_sound (limit_compared dev g) got.1 same).0 a half in
      let start : as_int (0 * iov_size g * 2) + a ≡ a = ground arith in rw start at first

  differs :
      iov_size g ≤ 2 ^ 20
      → (a : ℕ) → iov_size g ≤ a
      → a < 2 * iov_size g
      → a < g.logical_block_size / 2
      → a < g.buf_size
      → 0 < (s.buffers).out_mem a
      → same_spans (limit_compared dev g) got.1 ≡ false
  unfolding cleared
  differs small a low high half inside full =
      elim (Bool-cases (same_spans (limit_compared dev g) got.1)) [
        | inr differ ↦ differ
        | inl same ↦ absurd (
            grind (
              arith,
              first_same same a half,
              gap_kept small a low high inside,
              reads_into.source sent.file sent.buffers (limit_spans g) a,
            ))
      ]

  -- When the test of the vector limits expects success and its write and read succeed, on a device
  -- whose reads change nothing outside their vectors, it still reports corrupted data if a byte
  -- between the first two vectors, which have at most 1 MiB each, is within the first half block and
  -- within the buffer and is not zero in the first buffer.
  pub limits_corrupted :
      iov_size g ≤ 2 ^ 20
      → limits_should_fail g ≡ false
      → Takes dev (map from_out (limit_spans g)) (cleared dev g s)
      → is_neg got.0 ≡ false
      → (a : ℕ) → iov_size g ≤ a
      → a < 2 * iov_size g
      → a < g.logical_block_size / 2
      → a < g.buf_size
      → 0 < (s.buffers).out_mem a
      → test_max_vector_limits dev g s ≡ fail corrupted
  unfolding test_max_vector_limits transfer_unless write_vectors read_and_compare compare_spans
      cleared
  limits_corrupted small expected taken read a low high half inside full =
      rw (expected, taken, read, differs small a low high half inside full) refl
