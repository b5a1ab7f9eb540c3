-- ===== src/DiscontiguousIo/Program/Layout.antt =====
-- The vectors of a transfer lie apart within the buffer.
use ndt.Base.{
  ℕ, zero, suc, ◌+◌, ◌-◌, ◌*◌, ◌/◌, ◌≤◌, ◌<◌, ◌≡◌, ◌⊎◌, inl, inr, refl, arith, ltb, Bool-cases,
}
use ndt.Base.{true, false, if◌then◌else◌, All, length}
use ndt.DiscontiguousIo.Iovec.{SgIovec}
use ndt.DiscontiguousIo.Iovec.Trunc.{total}
use ndt.DiscontiguousIo.Iovec.Gather.{IsDisjoint}
use ndt.DiscontiguousIo.Program.{Choices, scattered_from, layout}

-- The bytes of the buffer: twice the length where it is scattered.
abbrev pub buffer_size : Choices → ℕ
buffer_size s = if s.scattered then s.len * 2 else s.len

-- What a transfer moves: whole groups of four bytes where the buffer is scattered.
abbrev pub moved : Choices → ℕ
moved s = if s.scattered then s.len / 4 * 4 else s.len

pub moved-le : (s : Choices) → moved s ≤ s.len
moved-le s = ground arith

module _ (len : ℕ) where
  from-All :
      (P : SgIovec → Type 0) (left i : ℕ)
      → i + left ≤ len / 4
      → ((k : ℕ) → i ≤ k → k < len / 4 → P (record { iov_base = 4 + k * 8; iov_len = 4 }))
      → All P (scattered_from len left i)
  unfolding scattered_from
  from-All P zero i h each = tt
  from-All P (suc left) i h each = (
    here (Bool-cases (ltb (len - i * 4) 4)) (each i (omega arith) (omega arith)),
    from-All P left (i + 1) (omega arith) (λ k a b. each k (omega arith) b),
  )
    where
      here :
          (ltb (len - i * 4) 4 ≡ true) ⊎ (ltb (len - i * 4) 4 ≡ false)
          → P (record { iov_base = 4 + i * 8; iov_len = 4 })
          → P (record {
            iov_base = 4 + i * 8;
            iov_len = if ltb (len - i * 4) 4 then len - i * 4 else 4;
          })
      here (inl short) p = absurd (ground (arith, short))
      here (inr full) p = rw full p

  from-IsDisjoint : (left i : ℕ) → i + left ≤ len / 4 → IsDisjoint (scattered_from len left i)
  unfolding scattered_from
  from-IsDisjoint zero i h = tt
  from-IsDisjoint (suc left) i h = (
    from-All _ left (i + 1) (omega arith) (λ k a b. inl (ground arith)),
    from-IsDisjoint left (i + 1) (omega arith),
  )

  from-total : (left i : ℕ) → i + left ≤ len / 4 → total (scattered_from len left i) ≡ left * 4
  unfolding scattered_from
  from-total zero i h = refl
  from-total (suc left) i h = ground (arith, from-total left (i + 1) (omega arith))

  from-length : (left i : ℕ) → length (scattered_from len left i) ≡ left
  unfolding scattered_from
  from-length zero i = refl
  from-length (suc left) i = omega (arith, from-length left (i + 1))

-- The vectors do not overlap, each ends within the buffer, and together they have all bytes that are
-- moved, which for a scattered buffer is the length less its remainder by four; there the vectors are
-- a quarter as many.
pub layout_lem :
    (s : Choices)
    → IsDisjoint (layout s)
      × All (λ p. p.iov_base + p.iov_len ≤ buffer_size s) (layout s)
      × (total (layout s) ≡ moved s)
      × (length (layout s) ≡ (if s.scattered then s.len / 4 else 1))
unfolding layout
layout_lem s = elim (Bool-cases s.scattered) [
  | inl yes_scattered ↦ rw yes_scattered (
    from-IsDisjoint s.len (s.len / 4) 0 (omega arith),
    from-All s.len _ (s.len / 4) 0 (omega arith) (λ k a b. omega arith),
    from-total s.len (s.len / 4) 0 (omega arith),
    from-length s.len (s.len / 4) 0,
  )
  | inr whole ↦ rw whole ((tt, tt), (omega arith, tt), omega arith, refl)
]
