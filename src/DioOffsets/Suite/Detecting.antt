-- ===== src/DioOffsets/Suite/Detecting.antt =====
-- What a test that finds nothing has seen.
pub mod Whole
pub mod Program
use ndt.Base.{
  ℤ, ℕ, ◌<◌, ◌≡◌, refl, sym, subst, arith, is_neg, Bool, true, false, Bool-cases, inl, inr,
}
use ndt.Base.{ltb, lt→ltb, if◌then◌else◌, List, [], ◌∷◌, map, All}
use ndt.DioOffsets.Globals.{Globals, Outcome, ok, fail, ◌>>=◌}
use ndt.DioOffsets.Spans.{
  Span, span, page_aligned_spans, dma_aligned_spans, invalid_dma_span, vector_alignment_spans,
  limit_spans, limits_should_fail, large_spans, vector_length_spans,
}
use ndt.DioOffsets.Device.{
  Device, State, Buffers, from_out, into_in, Iovec, compare_spans, same_spans,
}
use ndt.DioOffsets.Suite.{
  write_vectors, read_and_compare, transfer, transfer_unless, refused, cleared,
  test_full_size_aligned, test_dma_aligned, test_page_aligned_vectors, test_dma_aligned_vectors,
  test_unaligned_page_vectors, test_unaligned_vectors, test_invalid_starting_addr,
  test_invalid_middle_addr, test_invalid_dma_alignment, test_invalid_dma_vector_alignment,
  test_max_vector_limits, test_invalid_dma_vector_alignment_large, test_invalid_dma_vector_length,
  run_tests, starting_vectors, middle_vectors, limit_compared,
}
use ndt.DioOffsets.Suite.Kernel.{IsSame, same_spans_sound}
use ndt.DioOffsets.Suite.Passing.{Refuses, Takes}

-- A chain that succeeds has succeeded at each link.
pub chained {ℓ κ μ} :
    {A : Type ℓ} {B : Type κ} {C : Type μ} (m : Outcome A) (f : A → Outcome B) (y : B)
    → (m >>= f) ≡ ok y
    → ((x : A) → m ≡ ok x → f x ≡ ok y → C)
    → C
chained (ok x) f y h use_links = use_links x refl h
chained (fail e) f y h use_links = absurd (ground arith)

module _ {D : Type 0} (dev : Device D) where
  -- What the kernel answers to reading the vectors into the other buffer, after they were written.
  abbrev pub read_answer : List Span → State D → ℤ × Buffers × D
  read_answer sent s =
      dev.read_file (dev.write_file s.file s.buffers (map from_out sent)).1 s.buffers
        (map into_in sent)

  -- From `s`, the vectors were taken; reading them back was taken and has led to `s'`, and there the
  -- same bytes have come.
  pub record Seen (sent : List Span) (s s' : State D) : Type 0 where
    pub written : Takes dev (map from_out sent) s
    pub read : is_neg (read_answer sent s).0 ≡ false
    pub reached : s' ≡ record { file = (read_answer sent s).2; buffers = (read_answer sent s).1 }
    pub came_back : All (IsSame s'.buffers) sent

  compare_spans_sound :
      (spans : List Span) (s s' : State D)
      → compare_spans spans s ≡ ok s'
      → (s ≡ s') × All (IsSame s'.buffers) spans
  unfolding compare_spans
  compare_spans_sound spans s s' h = elim (Bool-cases (same_spans spans s.buffers)) [
    | inl same ↦
        let there : s ≡ s' = ground arith in
        (
          there,
          subst (λ t. All (IsSame t.buffers) spans) there (same_spans_sound spans s.buffers same),
        )
    | inr differ ↦ absurd (ground arith)
  ]

  transfer_sound :
      (sent : List Span) (s s' : State D) → transfer dev sent s ≡ ok s' → Seen sent s s'
  unfolding transfer write_vectors read_and_compare
  transfer_sound sent s s' h =
      let got = read_answer sent s in
      let (reached, same) =
        compare_spans_sound sent (record { file = got.2; buffers = got.1 }) s'
          (ground (arith, h)) in
      record {
        written = ground (arith, h);
        read = ground (arith, h);
        reached = sym reached;
        came_back = same;
      }

  transfer_unless_sound :
      (sent compared : List Span) (s s' : State D)
      → transfer_unless dev true sent compared s ≡ ok s'
      → Refuses dev (map from_out sent) s
  unfolding transfer_unless write_vectors
  transfer_unless_sound sent compared s s' h = ground arith

  refused_sound :
      (vectors : List Iovec) (s s' : State D)
      → refused dev vectors s ≡ ok s'
      → Refuses dev vectors s
  unfolding refused write_vectors
  refused_sound vectors s s' h = ground arith

module _ {D : Type 0} (dev : Device D) (g : Globals) where
  pub full_size_sound :
      (s s' : State D)
      → test_full_size_aligned dev g s ≡ ok s'
      → Seen dev (span 0 g.buf_size ∷ []) (cleared dev g s) s'
  unfolding test_full_size_aligned
  full_size_sound s s' h = transfer_sound dev (span 0 g.buf_size ∷ []) (cleared dev g s) s' h

  pub dma_aligned_sound :
      (s s' : State D)
      → test_dma_aligned dev g s ≡ ok s'
      → Seen dev (span g.dma_alignment g.max_bytes ∷ []) (cleared dev g s) s'
  unfolding test_dma_aligned
  dma_aligned_sound s s' h =
      transfer_sound dev (span g.dma_alignment g.max_bytes ∷ []) (cleared dev g s) s' h

  pub page_vectors_sound :
      (s s' : State D)
      → test_page_aligned_vectors dev g s ≡ ok s'
      → Seen dev (page_aligned_spans g) (cleared dev g s) s'
  unfolding test_page_aligned_vectors
  page_vectors_sound s s' h = transfer_sound dev (page_aligned_spans g) (cleared dev g s) s' h

  pub dma_vectors_sound :
      (s s' : State D)
      → test_dma_aligned_vectors dev g s ≡ ok s'
      → Seen dev (dma_aligned_spans g) (cleared dev g s) s'
  unfolding test_dma_aligned_vectors
  dma_vectors_sound s s' h = transfer_sound dev (dma_aligned_spans g) (cleared dev g s) s' h

  pub starting_null_sound :
      (s s' : State D)
      → test_invalid_starting_addr dev g s ≡ ok s'
      → Refuses dev (starting_vectors dev g) s
  unfolding test_invalid_starting_addr
  starting_null_sound s s' h = refused_sound dev (starting_vectors dev g) s s' h

  pub middle_null_sound :
      (s s' : State D)
      → test_invalid_middle_addr dev g s ≡ ok s'
      → Refuses dev (middle_vectors dev g) s
  unfolding test_invalid_middle_addr
  middle_null_sound s s' h = refused_sound dev (middle_vectors dev g) s s' h

  pub unaligned_late_sound :
      (s s' : State D)
      → test_invalid_dma_vector_alignment_large dev g s ≡ ok s'
      → Refuses dev (map from_out (large_spans g)) s
  unfolding test_invalid_dma_vector_alignment_large
  unaligned_late_sound s s' h = refused_sound dev (map from_out (large_spans g)) s s' h

  pub unaligned_base_sound :
      (s s' : State D)
      → test_invalid_dma_alignment dev g s ≡ ok s'
      → 1 < g.dma_alignment
      → Refuses dev (map from_out (invalid_dma_span g ∷ [])) (cleared dev g s)
  unfolding test_invalid_dma_alignment
  unaligned_base_sound s s' h l =
      let f : ltb 1 g.dma_alignment ≡ true = lt→ltb _ _ l in
      transfer_unless_sound dev (invalid_dma_span g ∷ []) (invalid_dma_span g ∷ [])
        (cleared dev g s) s' (rw f at h)

  pub unaligned_vector_sound :
      (s s' : State D)
      → test_invalid_dma_vector_alignment dev g s ≡ ok s'
      → 1 < g.dma_alignment
      → Refuses dev (map from_out (vector_alignment_spans g)) (cleared dev g s)
  unfolding test_invalid_dma_vector_alignment
  unaligned_vector_sound s s' h l =
      let f : ltb 1 g.dma_alignment ≡ true = lt→ltb _ _ l in
      transfer_unless_sound dev (vector_alignment_spans g) (vector_alignment_spans g)
        (cleared dev g s) s' (rw f at h)

  pub too_many_sound :
      (s s' : State D)
      → test_max_vector_limits dev g s ≡ ok s'
      → limits_should_fail g ≡ true
      → Refuses dev (map from_out (limit_spans g)) (cleared dev g s)
  unfolding test_max_vector_limits
  too_many_sound s s' h f =
      transfer_unless_sound dev (limit_spans g) (limit_compared dev g) (cleared dev g s) s'
        (rw f at h)

  pub unaligned_length_sound :
      (s s' : State D)
      → test_invalid_dma_vector_length dev g s ≡ ok s'
      → 1 < g.dma_alignment
      → Refuses dev (map from_out (vector_length_spans g)) s
  unfolding test_invalid_dma_vector_length write_vectors
  unaligned_length_sound s s' h l =
      let f : ltb 1 g.dma_alignment ≡ true = lt→ltb _ _ l in ground (arith, f)
