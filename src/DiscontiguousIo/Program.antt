-- ===== src/DiscontiguousIo/Program.antt =====
-- The options, the buffer and its vectors, and `main`, which returns 0 however it ends.
pub mod Layout
pub mod Reading
pub mod Writing
pub mod Sending
pub mod RoundTrip
use ndt.Base.{
  ℕ, zero, suc, ◌+◌, ◌-◌, ◌*◌, ◌/◌, ◌%◌, ◌^◌, ltb, ◌==◌, not, ◌&&◌, Bool, true, false,
  if◌then◌else◌,
}
use ndt.Base.{ℤ, pos, negsuc, is_neg, List, [], ◌∷◌, length, Option, none, some}
use ndt.DiscontiguousIo.Iovec.{SgIovec, u64, data_len, trunc, write}
use ndt.DiscontiguousIo.Command.{SgDevice, sg_read, sg_write}

-- What getopt finds, numbers as `strtoul` reads them; `other` is -h or an unknown option.
pub data Choice : Type 0 where
  l_opt o_opt : ℕ → Choice
  s_opt w_opt other : Choice

pub record Choices : Type 0 where
  pub scattered : Bool
  pub writes : Bool
  pub offs : ℕ
  pub len : ℕ

unfoldable pub default_choices : Choices
default_choices = record { scattered = false; writes = false; offs = 0; len = 512 }

unfoldable pub choices_from : Choices → List Choice → Option Choices
choices_from s [] = some s
choices_from s (l_opt n ∷ opts) = choices_from (record s { len = n }) opts
choices_from s (o_opt n ∷ opts) = choices_from (record s { offs = n % 2 ^ 32 }) opts
choices_from s (s_opt ∷ opts) = choices_from (record s { scattered = true }) opts
choices_from s (w_opt ∷ opts) = choices_from (record s { writes = true }) opts
choices_from s (other ∷ opts) = none

-- The vectors from the `i`th on, each appended behind the others.
unfoldable pub scattered_from : ℕ → ℕ → ℕ → List SgIovec
scattered_from len zero i = []
scattered_from len (suc left) i =
    record { iov_base = 4 + i * 8; iov_len = if ltb (len - i * 4) 4 then len - i * 4 else 4 }
    ∷ scattered_from len left (i + 1)

unfoldable pub layout : Choices → List SgIovec
unfolding scattered_from
layout s =
    if s.scattered
    then scattered_from s.len (s.len / 4) 0
    else record { iov_base = 0; iov_len = s.len } ∷ []

-- `std::cin`: the bytes that are left, and `gcount()`, the number that the last read has got.
pub record Stdin : Type 0 where
  pub left : List ℕ
  pub gcount : ℕ

-- A read of `n` bytes, or of those that are left, to an address.
unfoldable pub read_bytes : ℕ → ℕ → List ℕ → (ℕ → ℕ) → ℕ × List ℕ × (ℕ → ℕ)
read_bytes zero at bytes m = (0, bytes, m)
read_bytes (suc n) at [] m = (0, [], m)
read_bytes (suc n) at (b ∷ bytes) m =
    let (got, rest, m') = read_bytes n (at + 1) bytes (λ a. if a == at then b else m a) in
    (got + 1, rest, m')

-- The loop that fills the vectors from the input.
unfoldable pub fill_vectors : List SgIovec → Stdin → (ℕ → ℕ) → List SgIovec × (ℕ → ℕ)
unfolding read_bytes
fill_vectors [] cin m = ([], m)
fill_vectors (e ∷ v) cin m =
    let (got, left, m') = read_bytes e.iov_len e.iov_base cin.left m in
    let (rest, m'') = fill_vectors v (record { left = left; gcount = got }) m' in
    if got == e.iov_len
    then (e ∷ rest, m'')
    else (record e { iov_len = (got + 2 ^ 64 - cin.gcount) % 2 ^ 64 } ∷ v, m')

-- How the program ends. `failed_assertion` and `int_overflow` are not ways of returning.
pub data Ending : Type 0 where
  usage_shown too_few_arguments not_opened no_block_size bad_offset command_failed : Ending
  wrote : ℕ → ℕ → Ending
  printed : List ℕ → Ending
  failed_assertion int_overflow : Ending

-- What is told of a write: the count that it returns, and the bytes of the vectors.
abbrev pub told : List SgIovec → ℤ → Ending
told iov (negsuc n) = command_failed
told iov (pos n) = wrote n (data_len iov)

abbrev pub put_out : (ℕ → ℕ) → Option (List SgIovec) → Ending
put_out m none = failed_assertion
put_out m (some cut) = printed (write m cut)

-- What is printed of a read: the vectors, cut to the count that it returns.
abbrev pub shown : List SgIovec → (ℕ → ℕ) → ℤ → Ending
shown iov m (negsuc n) = command_failed
shown iov m (pos n) = put_out m (trunc iov n)

module _ {D : Type 0} (dev : SgDevice D) where
  unfoldable pub write_data : Choices → Stdin → (ℕ → ℕ) → D → Ending × D
  write_data s cin m d =
      let (iov, filled) = fill_vectors (layout s) cin m in
      let (written, after, d') = sg_write dev (s.offs / dev.block_size.1) iov filled d in
      (told iov written, d')

  unfoldable pub read_data : Choices → (ℕ → ℕ) → D → Ending × D
  read_data s m d =
      let (got, after, d') = sg_read dev (s.offs / dev.block_size.1) (layout s) m d in
      (shown (layout s) after got, d')

  -- From the options on; `i * 8` exceeds an `int` from 2 ^ 28 vectors on.
  unfoldable pub transfer_data : Choices → Stdin → (ℕ → ℕ) → D → Ending × D
  transfer_data s cin m d =
      if is_neg dev.block_size.0
      then (no_block_size, d)
      else (if not (s.offs % dev.block_size.1 == 0)
          then (bad_offset, d)
          else (if s.scattered && ltb (2 ^ 28) (s.len / 4)
              then (int_overflow, d)
              else (if s.writes then write_data s cin m d else read_data s m d)))

  abbrev pub run_with : Option Choices → ℕ → ℤ → List ℕ → D → Ending × D
  run_with none operands opened input d = (usage_shown, d)
  run_with (some s) operands opened input d =
      if ltb operands 1
      then (too_few_arguments, d)
      else (if is_neg opened
          then (not_opened, d)
          else transfer_data s (record { left = input; gcount = 0 }) (λ a. 0) d)

  -- With the options, the number of other arguments, and what `open` returns; the buffer is zero.
  unfoldable pub main : List Choice → ℕ → ℤ → List ℕ → D → Ending × D
  main opts operands opened input d =
      run_with (choices_from default_choices opts) operands opened input d
