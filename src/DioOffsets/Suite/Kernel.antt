-- ===== src/DioOffsets/Suite/Kernel.antt =====
-- What the tests rely on of the kernel, and comparing buffers.
use ndt.Base.{ℕ, zero, suc, ◌+◌, ◌≤◌, ◌<◌, ◌≡◌, ◌⊎◌, refl, arith, is_neg, true, false}
use ndt.Base.{List, [], ◌∷◌, ◌++◌, map, All, length, &&_split}
use ndt.DioOffsets.Globals.{Globals}
use ndt.DioOffsets.Spans.{Span}
use ndt.DioOffsets.Spans.Alignment.{IsUnaligned, IsAligned}
use ndt.DioOffsets.Device.{null, Iovec, from_out, into_in, Device, Buffers, same_bytes, same_spans}

-- The span has the same bytes in both buffers.
abbrev pub IsSame : Buffers → Span → Type 0
IsSame b s = (j : ℕ) → j < s.size → b.out_mem (s.offset + j) ≡ b.in_mem (s.offset + j)

-- What was written and accepted is read back: the same spans of the other buffer can be read into,
-- they then hold what the first buffer holds there, and the first buffer stays as it is.
pub record KeepsFiles {D : Type 0} (dev : Device D) : Type 0 where
  pub reads :
      (d : D) (b : Buffers) (spans : List Span)
      → is_neg (dev.write_file d b (map from_out spans)).0 ≡ false
      → is_neg (dev.read_file (dev.write_file d b (map from_out spans)).1 b (map into_in spans)).0
        ≡ false
  pub same :
      (d : D) (b : Buffers) (spans : List Span)
      → is_neg (dev.write_file d b (map from_out spans)).0 ≡ false
      → All
          (IsSame
            (dev.read_file (dev.write_file d b (map from_out spans)).1 b (map into_in spans)).1)
          spans

-- Which writes the kernel takes: a null address is refused, and so is an address or a length that
-- the device's alignment does not divide; up to five vectors at aligned addresses, of whole blocks,
-- are taken.
pub record Judges {D : Type 0} (dev : Device D) (g : Globals) : Type 0 where
  pub refuses_null :
      (d : D) (b : Buffers) (pre post : List Iovec)
      → is_neg
          (dev.write_file d b
            (pre ++ record { iov_base = null; iov_len = g.logical_block_size } ∷ post)).0
        ≡ true
  pub refuses_unaligned :
      (d : D) (b : Buffers) (pre : List Span) (s : Span) (post : List Span)
      → IsUnaligned g.dma_alignment s.offset ⊎ IsUnaligned g.dma_alignment s.size
      → is_neg (dev.write_file d b (map from_out (pre ++ s ∷ post))).0 ≡ true
  pub takes :
      (d : D) (b : Buffers) (spans : List Span)
      → length spans ≤ 5
      → All (IsAligned g) spans
      → is_neg (dev.write_file d b (map from_out spans)).0 ≡ false

same_bytes_complete :
    (n o : ℕ) (b : Buffers)
    → ((j : ℕ) → j < n → b.out_mem (o + j) ≡ b.in_mem (o + j))
    → same_bytes n o b ≡ true
unfolding same_bytes
same_bytes_complete zero o b h = refl
same_bytes_complete (suc n) o b h =
    ground
      (arith, h 0, same_bytes_complete n (o + 1) b (λ j l. shifted j (h (j + 1) (omega arith))))
  where
    shifted :
        (j : ℕ)
        → b.out_mem (o + (j + 1)) ≡ b.in_mem (o + (j + 1))
        → b.out_mem (o + 1 + j) ≡ b.in_mem (o + 1 + j)
    shifted j e = let same : o + 1 + j ≡ o + (j + 1) = omega arith in rw same e

same_bytes_sound :
    (n o : ℕ) (b : Buffers)
    → same_bytes n o b ≡ true
    → (j : ℕ) → j < n
    → b.out_mem (o + j) ≡ b.in_mem (o + j)
unfolding same_bytes
same_bytes_sound zero o b h j l = absurd (omega arith)
same_bytes_sound (suc n) o b h zero l = ground arith
same_bytes_sound (suc n) o b h (suc j) l =
    let same : o + suc j ≡ o + 1 + j = omega arith in
    rw same (same_bytes_sound n (o + 1) b ((&&_split _ _ h).1) j (omega arith))

pub same_spans_complete :
    (spans : List Span) (b : Buffers) → All (IsSame b) spans → same_spans spans b ≡ true
unfolding same_spans
same_spans_complete [] b h = refl
same_spans_complete (s ∷ spans) b h =
    rw (same_bytes_complete s.size s.offset b h.0) (same_spans_complete spans b h.1)

pub same_spans_sound :
    (spans : List Span) (b : Buffers) → same_spans spans b ≡ true → All (IsSame b) spans
unfolding same_spans
same_spans_sound [] b h = tt
same_spans_sound (s ∷ spans) b h =
    let both = &&_split (same_bytes s.size s.offset b) (same_spans spans b) h in
    (same_bytes_sound s.size s.offset b both.0, same_spans_sound spans b both.1)
