-- ===== src/DioOffsets/Device.antt =====
-- The file under test, and what a program sees of it: the answers to writes and reads at position 0,
-- of one vector or of several.
use ndt.Base.{ℕ, zero, suc, ◌+◌, ℤ, Bool, true, ◌==◌, ◌&&◌, if◌then◌else◌}
use ndt.Base.{List, [], ◌∷◌}
use ndt.DioOffsets.Globals.{Outcome, ok, fail, corrupted}
use ndt.DioOffsets.Spans.{Span}

-- An address in one of the two buffers, or 0.
pub data Place : Type 0 where
  null : Place
  in_out_buf in_in_buf : ℕ → Place

pub record Iovec : Type 0 where
  pub iov_base : Place
  pub iov_len : ℕ

abbrev pub from_out : Span → Iovec
from_out s = record { iov_base = in_out_buf s.offset; iov_len = s.size }

abbrev pub into_in : Span → Iovec
into_in s = record { iov_base = in_in_buf s.offset; iov_len = s.size }

-- The contents of `out_buf` and of `in_buf`.
pub record Buffers : Type 0 where
  pub out_mem : ℕ → ℕ
  pub in_mem : ℕ → ℕ

-- An answer is the value that the program keeps in the `int` `ret`.
pub record Device (D : Type 0) : Type 0 where
  pub write_file : D → Buffers → List Iovec → ℤ × D
  pub read_file : D → Buffers → List Iovec → ℤ × Buffers × D

pub record State (D : Type 0) : Type 0 where
  pub file : D
  pub buffers : Buffers

-- `memcmp` of as many bytes at the same offset of the two buffers.
unfoldable pub same_bytes : ℕ → ℕ → Buffers → Bool
same_bytes zero offset b = true
same_bytes (suc left) offset b =
    (b.out_mem offset == b.in_mem offset) && same_bytes left (offset + 1) b

-- `compare`, for each span of a list.
unfoldable pub same_spans : List Span → Buffers → Bool
unfolding same_bytes
same_spans [] b = true
same_spans (s ∷ spans) b = same_bytes s.size s.offset b && same_spans spans b

unfoldable pub compare_spans : {D : Type 0} → List Span → State D → Outcome (State D)
compare_spans spans s = if same_spans spans s.buffers then ok s else fail corrupted
