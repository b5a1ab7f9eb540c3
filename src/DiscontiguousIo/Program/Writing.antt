-- ===== src/DiscontiguousIo/Program/Writing.antt =====
-- Writing from a scattered buffer: the count of what the input gave is taken wrongly.
use ndt.Base.{
  ℕ, zero, suc, ◌+◌, ◌-◌, ◌*◌, ◌/◌, ◌%◌, ◌^◌, ◌≤◌, ◌<◌, ◌≡◌, refl, arith, inl, inr, ltb, ◌==◌,
}
use ndt.Base.{true, false, Bool-cases, if◌then◌else◌, List, [], ◌∷◌, length, some, ℤ, is_neg}
use ndt.DiscontiguousIo.Iovec.{SgIovec, data_len}
use ndt.DiscontiguousIo.Command.{SgDevice, sg_acceptable, sg_transfer, sg_write}
use ndt.DiscontiguousIo.Program.{
  Choice, Choices, choices_from, default_choices, scattered_from, layout, Stdin, read_bytes,
  fill_vectors, command_failed, write_data, transfer_data, main,
}
use ndt.DiscontiguousIo.Program.Layout.{moved}

abbrev min : ℕ → ℕ → ℕ
min a b = if ltb a b then a else b

read_bytes_lem :
    (n at : ℕ) (input : List ℕ) (m : ℕ → ℕ)
    → ((read_bytes n at input m).0 ≡ min n (length input))
      × (length (read_bytes n at input m).1 ≡ length input - n)
unfolding read_bytes
read_bytes_lem zero at input m = ground arith
read_bytes_lem (suc n) at [] m = ground arith
read_bytes_lem (suc n) at (b ∷ input) m =
    ground (arith, read_bytes_lem n (at + 1) input (λ a. if a == at then b else m a))

-- Up to eight bytes are missing in the sum.
abbrev IsShort : ℕ → ℕ → Type 0
IsShort whole sum = (x : ℕ) × (0 < x) × (x ≤ 8) × (sum ≡ (whole + 2 ^ 64 - x) % 2 ^ 64)

module _ (len : ℕ) (small : len < 2 ^ 30) where
  full_from : (left i : ℕ) → i + left ≤ len / 4 → data_len (scattered_from len left i) ≡ left * 4
  unfolding scattered_from data_len
  full_from zero i h = refl
  full_from (suc left) i h = ground (arith, full_from left (i + 1) (omega arith), small)

  IsShort-from :
      (left i : ℕ) (cin : Stdin) (m : ℕ → ℕ)
      → i + left ≤ len / 4
      → cin.gcount ≤ 4
      → length cin.left < left * 4
      → IsShort (left * 4) (data_len (fill_vectors (scattered_from len left i) cin m).0)
  unfolding scattered_from fill_vectors data_len
  IsShort-from zero i cin m h g l = absurd (omega (arith, l))
  IsShort-from (suc left) i cin m h g l =
      let whole : ltb (len - i * 4) 4 ≡ false = ground arith in
      let got = read_bytes 4 (4 + i * 8) cin.left m in
      let (count, left_over) = read_bytes_lem 4 (4 + i * 8) cin.left m in
      elim (Bool-cases (got.0 == 4)) [
        | inl all ↦
            let four : got.0 ≡ 4 = ground (arith, all) in
            let (x, p, u, e) =
              IsShort-from left (i + 1) (record { left = got.1; gcount = got.0 }) got.2
                (omega arith) (omega (arith, four)) (ground (arith, l, count, left_over, four)) in
            rw whole (rw all (x, p, u, omega (arith, e)))
        | inr part ↦
            let few : got.0 < 4 = ground (arith, part, count) in
            let rest = full_from left (i + 1) (omega arith) in
            rw whole (
              rw part (
                4 - got.0 + cin.gcount,
                omega (arith, few),
                omega (arith, g),
                omega (arith, rest, few, g, small),
              ))
      ]

mul_mono : (a b c : ℕ) → a ≤ b → a * c ≤ b * c
mul_mono a b c h = grind arith

-- No multiple lies strictly between two neighbours.
between : (k q b x : ℕ) → k * b + x ≡ q * b → 0 < x → x < b → ⊥
between k q b x e h l = elim (Bool-cases (ltb k q)) [
  | inl less ↦ omega (arith, e, mul_mono (suc k) q b (ground (arith, less)))
  | inr more ↦ omega (arith, e, mul_mono q k b (ground (arith, more)))
]

-- A sum that is short by less than a block is no multiple of it.
refused :
    (bs lba : ℕ) (v : List SgIovec) (whole : ℕ)
    → 8 < bs
    → 0 < whole
    → whole % bs ≡ 0
    → whole < 2 ^ 30
    → IsShort whole (data_len v)
    → sg_acceptable bs lba v ≡ false
unfolding sg_acceptable
refused bs lba v whole large some_bytes multiple fits (x, p, u, e) =
    let many : bs ≤ whole = at_least whole bs some_bytes multiple in
    let sum : data_len v ≡ whole - x = omega (arith, e, many, large, u, fits) in
    let odd = off_by whole x bs p (omega (arith, u, large)) multiple many in
    ground (arith, sum, odd)
  where
    at_least : (w b : ℕ) → 0 < w → w % b ≡ 0 → b ≤ w
    at_least w b h e = grind (arith, h, e)

    off_by : (w x b : ℕ) → 0 < x → x < b → w % b ≡ 0 → b ≤ w → (((w - x) % b) == 0) ≡ false
    off_by w x b h l e m = elim (Bool-cases ((w - x) % b == 0)) [
      | inr odd ↦ odd
      | inl even ↦
          let none_left : (w - x) % b ≡ 0 = ground (arith, even) in
          absurd (between ((w - x) / b) (w / b) b x (grind (arith, none_left, e, l, m)) h l)
    ]

-- With -s and -w, for whole blocks of more than eight bytes and less than 1 GiB, an input that is
-- shorter than what is to be written is never written, even if it is whole blocks: the program ends
-- with a refused command, before it asks the device for anything.
pub short_input_refused :
    {D : Type 0} (dev : SgDevice D) (s : Choices) (opts : List Choice) (operands : ℕ) (opened : ℤ)
    (input : List ℕ) (d : D)
    → choices_from default_choices opts ≡ some s
    → s.scattered ≡ true
    → s.writes ≡ true
    → s.len < 2 ^ 30
    → 0 < operands
    → is_neg opened ≡ false
    → is_neg dev.block_size.0 ≡ false
    → 8 < dev.block_size.1
    → s.offs % dev.block_size.1 ≡ 0
    → 0 < moved s
    → moved s % dev.block_size.1 ≡ 0
    → length input < moved s
    → main dev opts operands opened input d ≡ (command_failed, d)
short_input_refused dev s opts operands opened input d chosen scatter writing small some_operand
      is_open known large offset some_bytes whole short =
    let operand : ltb operands 1 ≡ false = ground (arith, some_operand) in
    let few : ltb (2 ^ 28) (s.len / 4) ≡ false = ground (arith, small) in
    unfold main transfer_data in
    (simp (chosen, operand, is_open, known, offset, few, writing, scatter) written)
  where
    cin : Stdin
    cin = record { left = input; gcount = 0 }

    layout_scattered : layout s ≡ scattered_from s.len (s.len / 4) 0
    layout_scattered = unfold layout in (rw scatter refl)

    moved_groups : moved s ≡ s.len / 4 * 4
    moved_groups = rw scatter refl

    not_taken :
        sg_acceptable dev.block_size.1
          (s.offs / dev.block_size.1)
          (fill_vectors (layout s) cin (λ a. 0)).0
        ≡ false
    not_taken =
        refused dev.block_size.1 (s.offs / dev.block_size.1)
          (fill_vectors (layout s) cin (λ a. 0)).0 (s.len / 4 * 4) large
          (omega (arith, some_bytes, moved_groups)) (rw moved_groups at whole)
          (omega (arith, small))
          ((rw layout_scattered (
            IsShort-from s.len small (s.len / 4) 0 cin (λ a. 0) (omega arith) (omega arith)
              (omega (arith, short, moved_groups)))))

    written : write_data dev s cin (λ a. 0) d ≡ (command_failed, d)
    written = unfold write_data sg_write sg_transfer in (rw not_taken refl)
