-- ===== src/DiscontiguousIo/Iovec.antt =====
-- `iovec_t` of discontiguous-io.cpp: the vectors of a transfer, in their order.
pub mod Gather
pub mod Trunc
use ndt.Base.{ℕ, zero, suc, ◌+◌, ◌-◌, ◌%◌, ◌^◌, leb, ltb, ◌==◌, ◌&&◌, ◌||◌, if◌then◌else◌}
use ndt.Base.{List, [], ◌∷◌, ◌++◌, Option, none, some}

-- `sg_iovec_t`; an address is an offset in the buffer.
pub record SgIovec : Type 0 where
  pub iov_base : ℕ
  pub iov_len : ℕ

-- `size_t`.
abbrev pub u64 : ℕ → ℕ
u64 n = n % 2 ^ 64

unfoldable pub data_len : List SgIovec → ℕ
data_len [] = 0
data_len (p ∷ v) = u64 (p.iov_len + data_len v)

-- The loop of `trunc`, with `s` as it was before the vector; `none` is the failed assertion.
unfoldable pub trunc_from : ℕ → ℕ → List SgIovec → Option (List SgIovec)
trunc_from len s [] = some []
trunc_from len s (p ∷ v) =
    let s' = u64 (s + p.iov_len) in
    let cut = (p.iov_len + 2 ^ 64 - (s' - len)) % 2 ^ 64 in
    let rest = trunc_from len s' v in
    if leb len s'
    then (if ltb 0 cut || ((cut == 0) && (len == 0))
        then some (record p { iov_len = cut } ∷ [])
        else none)
    else elim rest [ none ↦ none | some v' ↦ some (p ∷ v') ]

unfoldable pub trunc : List SgIovec → ℕ → Option (List SgIovec)
unfolding trunc_from
trunc v len = trunc_from len 0 v

-- `count` bytes from an address on.
unfoldable pub bytes : (ℕ → ℕ) → ℕ → ℕ → List ℕ
bytes m from zero = []
bytes m from (suc count) = m from ∷ bytes m (from + 1) count

-- What `write` puts out.
unfoldable pub write : (ℕ → ℕ) → List SgIovec → List ℕ
unfolding bytes
write m [] = []
write m (p ∷ v) = bytes m p.iov_base p.iov_len ++ write m v
