-- ===== src/Tests/Simulated.antt =====
-- A simulated kernel: the file holds what was written last. A write is taken if it has fewer vectors
-- than a limit and each has an address and a length that the alignment divides.
use ndt.Base.{ℕ, ◌+◌, ◌%◌, ◌≤◌, ◌<◌, ◌≡◌, ◌⊎◌, refl, arith, inl, inr}
use ndt.Base.{Bool, true, false, ltb, leb, ◌==◌, ◌&&◌, ◌||◌, if◌then◌else◌, ℤ, pos, negsuc}
use ndt.Base.{List, [], ◌∷◌, ◌++◌, map, All, length, IsMultiple, IsMultiple-trans}
use ndt.DioOffsets.Globals.{Globals}
use ndt.DioOffsets.Spans.{Span}
use ndt.DioOffsets.Spans.Alignment.{IsAligned, IsUnaligned}
use ndt.DioOffsets.Device.{Place, null, in_out_buf, in_in_buf, Iovec, from_out, into_in, Device}
use ndt.DioOffsets.Suite.Kernel.{KeepsFiles, Judges, IsSame}
use ndt.DioOffsets.Suite.Flaws.Limits.{ReadsInto}

abbrev pub placed : ℕ → Place → Bool
placed d null = false
placed d (in_out_buf a) = a % d == 0
placed d (in_in_buf a) = a % d == 0

abbrev pub acceptable : ℕ → Iovec → Bool
acceptable d v = placed d v.iov_base && (v.iov_len % d == 0)

unfoldable pub all_acceptable : ℕ → List Iovec → Bool
all_acceptable d [] = true
all_acceptable d (v ∷ vectors) = acceptable d v && all_acceptable d vectors

abbrev pub within : ℕ → ℕ → Place → Bool
within j n null = false
within j n (in_out_buf a) = false
within j n (in_in_buf a) = leb a j && ltb j (a + n)

abbrev pub holds : ℕ → Iovec → Bool
holds j v = within j v.iov_len v.iov_base

unfoldable pub covered : ℕ → List Iovec → Bool
covered j [] = false
covered j (v ∷ vectors) = holds j v || covered j vectors

abbrev pub verdict : Bool → ℤ
verdict b = if b then pos 0 else negsuc 0

abbrev pub simulated : ℕ → ℕ → Device (ℕ → ℕ)
simulated limit d = record {
  write_file = λ file b vectors.
      (verdict (ltb (length vectors) limit && all_acceptable d vectors), λ j. b.out_mem j);
  read_file = λ file b vectors.
      (pos 0, record b { in_mem = λ j. if covered j vectors then file j else b.in_mem j }, file);
}

covered_head :
    (s : Span) (vectors : List Iovec) (j : ℕ)
    → j < s.size
    → covered (s.offset + j) (into_in s ∷ vectors) ≡ true
unfolding covered
covered_head s vectors j h = ground arith

covered_tail :
    (v : Iovec) (vectors : List Iovec) (j : ℕ)
    → covered j vectors ≡ true
    → covered j (v ∷ vectors) ≡ true
unfolding covered
covered_tail v vectors j h = ground (arith, h)

-- Spans that are part of what is read come back.
part_same :
    (file m : ℕ → ℕ) (whole : List Iovec) (spans : List Span)
    → ((j : ℕ) → covered j (map into_in spans) ≡ true → covered j whole ≡ true)
    → All
        (IsSame (record { out_mem = file; in_mem = λ j. if covered j whole then file j else m j }))
        spans
part_same file m whole [] h = tt
part_same file m whole (s ∷ spans) h = (
  λ j l. rw (h (s.offset + j) (covered_head s (map into_in spans) j l)) refl,
  part_same file m whole spans (λ j c. h j (covered_tail (into_in s) (map into_in spans) j c)),
)

pub simulated-KeepsFiles : (limit d : ℕ) → KeepsFiles (simulated limit d)
simulated-KeepsFiles limit d = record {
  reads = λ file b spans taken. refl;
  same = λ file b spans taken. part_same b.out_mem b.in_mem (map into_in spans) spans (λ j c. c);
}

uncovered :
    (a : ℕ) (spans : List Span)
    → All (λ s. (a < s.offset) ⊎ (s.offset + s.size ≤ a)) spans
    → covered a (map into_in spans) ≡ false
unfolding covered
uncovered a [] h = refl
uncovered a (s ∷ spans) h = ground (arith, h.0, uncovered a spans h.1)

pub simulated-ReadsInto : (limit d : ℕ) → ReadsInto (simulated limit d)
simulated-ReadsInto limit d = record {
  outside = λ file b sent a h. rw (uncovered a sent h) refl;
  source = λ file b sent a. refl;
}

null_refused :
    (d n : ℕ) (pre post : List Iovec)
    → all_acceptable d (pre ++ record { iov_base = null; iov_len = n } ∷ post) ≡ false
unfolding all_acceptable
null_refused d n [] post = refl
null_refused d n (v ∷ pre) post = ground (arith, null_refused d n pre post)

remainder : (d x : ℕ) → IsUnaligned d x → (x % d == 0) ≡ false
remainder d x (q, r, e, some_rest, small) = let rest : x % d ≡ r = grind (arith, e) in ground arith

unaligned_refused :
    (d : ℕ) (pre : List Span) (s : Span) (post : List Span)
    → IsUnaligned d s.offset ⊎ IsUnaligned d s.size
    → all_acceptable d (map from_out (pre ++ s ∷ post)) ≡ false
unfolding all_acceptable
unaligned_refused d [] s post (inl h) = rw (remainder d s.offset h) refl
unaligned_refused d [] s post (inr h) = ground (arith, remainder d s.size h)
unaligned_refused d (v ∷ pre) s post h = ground (arith, unaligned_refused d pre s post h)

divided : (d x : ℕ) → 0 < d → IsMultiple d x → (x % d == 0) ≡ true
divided d x p (m, e) = let none_left : x % d ≡ 0 = grind (arith, e) in ground arith

aligned_taken :
    (g : Globals)
    → 0 < g.dma_alignment
    → IsMultiple g.dma_alignment g.logical_block_size
    → (spans : List Span) → All (IsAligned g) spans
    → all_acceptable g.dma_alignment (map from_out spans) ≡ true
unfolding all_acceptable
aligned_taken g p blocks [] h = refl
aligned_taken g p blocks (s ∷ spans) ((base, len), h) =
    let whole = divided g.dma_alignment s.size p (IsMultiple-trans _ _ _ blocks len) in
    rw (divided g.dma_alignment s.offset p base, whole) (aligned_taken g p blocks spans h)

pub length-map : (f : Span → Iovec) (spans : List Span) → length (map f spans) ≡ length spans
length-map f [] = refl
length-map f (s ∷ spans) = omega (arith, length-map f spans)

pub simulated-Judges :
    (limit : ℕ) (g : Globals)
    → 5 < limit
    → 0 < g.dma_alignment
    → IsMultiple g.dma_alignment g.logical_block_size
    → Judges (simulated limit g.dma_alignment) g
simulated-Judges limit g enough p blocks = record {
  refuses_null =
      λ file b pre post. ground (arith, null_refused g.dma_alignment g.logical_block_size pre post);
  refuses_unaligned =
      λ file b pre s post h. ground (arith, unaligned_refused g.dma_alignment pre s post h);
  takes = λ file b spans few h.
      ground (arith, aligned_taken g p blocks spans h, length-map from_out spans);
}
