-- ===== src/DioOffsets/Words.antt =====
-- The conversions that dio-offsets.c relies on, between `unsigned long`, `int` and pointers.
use ndt.Base.{ℕ, ◌+◌, ◌-◌, ◌%◌, ◌^◌, if◌then◌else◌, ltb}

abbrev pub u64 : ℕ → ℕ
u64 x = x % 2 ^ 64

-- `a - b` of two unsigned longs.
abbrev pub sub64 : ℕ → ℕ → ℕ
sub64 a b = (a + 2 ^ 64 - b) % 2 ^ 64

-- An `unsigned long` kept in an `int` and then added to a pointer: its low 32 bits, extended by
-- their sign.
abbrev pub as_int : ℕ → ℕ
as_int x = if ltb (x % 2 ^ 32) (2 ^ 31) then x % 2 ^ 32 else x % 2 ^ 32 + (2 ^ 64 - 2 ^ 32)
