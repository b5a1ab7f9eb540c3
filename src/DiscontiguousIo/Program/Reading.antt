-- ===== src/DiscontiguousIo/Program/Reading.antt =====
-- Reading: scattered or not, the program prints what the device has.
use ndt.Base.{ℕ, zero, suc, ◌+◌, ◌-◌, ◌/◌, ◌%◌, ◌^◌, ◌≤◌, ◌<◌, ◌≡◌, refl, ap, ◌∙◌, arith, ltb}
use ndt.Base.{true, false, ◌&&◌, List, ◌∷◌, length, some, ℤ, pos, is_neg}
use ndt.DiscontiguousIo.Iovec.{SgIovec, data_len, bytes}
use ndt.DiscontiguousIo.Iovec.Trunc.{total, data_len-total, take, trunc-IsCut}
use ndt.DiscontiguousIo.Iovec.Gather.{place, write-place}
use ndt.DiscontiguousIo.Command.{
  SgDevice, from_dev, header, result_of, sg_acceptable, sg_transfer, sg_read, signed64, too_old,
  max_read_write_6_lba, max_read_write_6_length,
}
use ndt.DiscontiguousIo.Program.{
  Choice, Choices, choices_from, default_choices, layout, printed, read_data, transfer_data, main,
}
use ndt.DiscontiguousIo.Program.Layout.{moved, moved-le, layout_lem}

-- In a state of the device, the `n` bytes of its blocks from an address on are this content, and a
-- read of them leaves the last `short` bytes out: a READ(6) of that address with at most as many
-- vectors as a header can count puts the other bytes into the vectors, one after another.
pub record ReadsBlocks {D : Type 0} (dev : SgDevice D) (d : D) (lba n : ℕ) (content : ℕ → ℕ)
    (short : ℕ) : Type 0 where
  pub new_enough : (is_neg dev.version.0 ≡ false) × (too_old dev.version.1 ≡ false)
  pub taken :
      (m : ℕ → ℕ) (v : List SgIovec)
      → total v ≡ n
      → length v < 2 ^ 16
      → let h = (dev.sg_io d m (header dev 0x08 from_dev lba v)).0 in
        (is_neg h.ret ≡ false) × (result_of h ≡ 0) × (h.resid ≡ pos short)
  pub placed :
      (m : ℕ → ℕ) (v : List SgIovec)
      → total v ≡ n
      → length v < 2 ^ 16
      → (c : ℕ → ℕ) × ((j : ℕ) → j < n - short → c j ≡ content j)
        × ((dev.sg_io d m (header dev 0x08 from_dev lba v)).1 ≡ place v c 0 m)

-- What can be asked for: whole blocks, at most 255, at an address of 21 bits, in vectors that a
-- header can count.
pub record IsAskable (block_size : ℕ) (s : Choices) : Type 0 where
  pub some_size : 0 < block_size
  pub whole_offset : s.offs % block_size ≡ 0
  pub short_address : s.offs / block_size ≤ max_read_write_6_lba
  pub some_bytes : 0 < moved s
  pub whole_blocks : moved s % block_size ≡ 0
  pub few_blocks : moved s / block_size ≤ max_read_write_6_length
  pub length_fits : s.len < 2 ^ 30
  pub few_vectors : length (layout s) < 2 ^ 16

pub layout-length : (s : Choices) → s.len < 2 ^ 30 → data_len (layout s) ≡ moved s
layout-length s h =
    let (apart, inside, sum, count) = layout_lem s in
    data_len-total (layout s) (omega (arith, sum, moved-le s)) ∙ sum

pub layout-sg_acceptable :
    (block_size : ℕ) (s : Choices)
    → IsAskable block_size s
    → sg_acceptable block_size (s.offs / block_size) (layout s) ≡ true
unfolding sg_acceptable
layout-sg_acceptable block_size s ok =
    let same = layout-length s ok.length_fits in
    rw same (ground (arith, ok.short_address, ok.some_bytes, ok.whole_blocks, ok.few_blocks))

take-agree :
    (c c' : ℕ → ℕ) (from k n : ℕ)
    → ((j : ℕ) → from ≤ j → j < from + k → c j ≡ c' j)
    → take k (bytes c from n) ≡ take k (bytes c' from n)
unfolding bytes
take-agree c c' from zero n h = refl
take-agree c c' from (suc k) zero h = refl
take-agree c c' from (suc k) (suc n) h =
    let rest = take-agree c c' (from + 1) k n (λ j a b. h j (omega arith) (omega arith)) in
    rw (h from (omega arith) (omega arith)) (ap (λ t. c' from ∷ t) rest)

module _ {D : Type 0} (dev : SgDevice D) (d : D) (content : ℕ → ℕ) (short : ℕ) (s : Choices)
    (ok : IsAskable dev.block_size.1 s)
    (reads : ReadsBlocks dev d (s.offs / dev.block_size.1) (moved s) content short)
    (most : short ≤ moved s) where
  abbrev lba : ℕ
  lba = s.offs / dev.block_size.1

  whole : total (layout s) ≡ moved s
  whole = (layout_lem s).2

  sg_read-eq :
      (m : ℕ → ℕ)
      → (c : ℕ → ℕ) × (d' : D) × ((j : ℕ) → j < moved s - short → c j ≡ content j)
        × (sg_read dev lba (layout s) m d ≡ (pos (moved s - short), place (layout s) c 0 m, d'))
  sg_read-eq m =
      let answer = reads.taken m (layout s) whole ok.few_vectors in
      let (c, agree, put) = reads.placed m (layout s) whole ok.few_vectors in
      (
        c,
        (dev.sg_io d m (header dev 0x08 from_dev lba (layout s))).2,
        agree,
        unfold sg_read sg_transfer in
            (rw
              (
                layout-sg_acceptable dev.block_size.1 s ok,
                reads.new_enough.0,
                reads.new_enough.1,
                answer.0,
                answer.1,
                answer.2,
                put,
                layout-length s ok.length_fits,
                counted (moved s) short most (moved-le s),
              )
              refl),
      )
    where
      counted : (n r : ℕ) → r ≤ n → n ≤ s.len → signed64 ((n + 2 ^ 64 - r) % 2 ^ 64) ≡ pos (n - r)
      counted n r h l = ground (arith, ok.length_fits)

  printed_lem :
      (m : ℕ → ℕ)
      → (read_data dev s m d).0 ≡ printed (take (moved s - short) (bytes content 0 (moved s)))
  printed_lem m =
      let (c, d', agree, e) = sg_read-eq m in
      let put = place (layout s) c 0 m in
      let counted = moved s - short in
      let cut =
        trunc-IsCut put (layout s) counted (omega (arith, whole))
          (omega (arith, whole, moved-le s, ok.length_fits)) in
      unfold read_data in
      (rw (e, cut.returns)
        (ap printed (
          cut.first_bytes
          ∙ ap (take counted) (write-place (layout s) c 0 m (layout_lem s).0)
          ∙ ap (λ n. take counted (bytes c 0 n)) whole
          ∙ take-agree c content 0 counted (moved s) (λ j a b. agree j (omega (arith, b))))))

  -- For options that choose a read of whole blocks, at most 255 and less than 1 GiB, at an address of
  -- 21 bits and in less than 2 ^ 16 vectors, on a device that has some content there and leaves out the
  -- last `short` bytes of a read, the program prints the content from that address on but for the bytes
  -- that are left out: all bytes that were asked for, or, with -s, those of whole groups of four.
  pub main_prints :
      (opts : List Choice) (operands : ℕ) (opened : ℤ) (input : List ℕ)
      → choices_from default_choices opts ≡ some s
      → s.writes ≡ false
      → 0 < operands
      → is_neg opened ≡ false
      → is_neg dev.block_size.0 ≡ false
      → (main dev opts operands opened input d).0
        ≡ printed (take (moved s - short) (bytes content 0 (moved s)))
  main_prints opts operands opened input chosen reading some_operand is_open known =
      let operand : ltb operands 1 ≡ false = ground (arith, some_operand) in
      let few : (s.scattered && ltb (2 ^ 28) (s.len / 4)) ≡ false =
        ground (arith, ok.length_fits) in
      unfold main transfer_data in
      (simp (chosen, operand, is_open, known, ok.whole_offset, few, reading) (printed_lem (λ a. 0)))
