-- ===== src/DiscontiguousIo/Program/RoundTrip.antt =====
-- What one run of the program writes, another run reads.
use ndt.Base.{
  ℕ, zero, suc, ◌+◌, ◌-◌, ◌/◌, ◌%◌, ◌^◌, ◌≤◌, ◌<◌, ◌≡◌, refl, ap, subst, ◌∙◌, arith, ltb,
}
use ndt.Base.{true, false, ◌&&◌, List, [], ◌∷◌, length, some, ℤ, pos, is_neg}
use ndt.DiscontiguousIo.Iovec.{SgIovec, data_len, bytes, write}
use ndt.DiscontiguousIo.Iovec.Trunc.{total, take}
use ndt.DiscontiguousIo.Command.{
  SgDevice, SgAnswer, to_dev, header, result_of, sg_transfer, sg_write, signed64, too_old,
}
use ndt.DiscontiguousIo.Program.{
  Choice, Choices, choices_from, default_choices, layout, Stdin, fill_vectors, Ending, printed,
  wrote, write_data, transfer_data, main,
}
use ndt.DiscontiguousIo.Program.Layout.{moved, moved-le, layout_lem}
use ndt.DiscontiguousIo.Program.Reading.{
  ReadsBlocks, IsAskable, layout-length, layout-sg_acceptable, main_prints,
}
use ndt.DiscontiguousIo.Program.Sending.{fill_vectors-IsFilled}

-- The byte at a place of a list, and 0 behind its end.
abbrev pub byte_at : List ℕ → ℕ → ℕ
byte_at [] j = 0
byte_at (x ∷ xs) zero = x
byte_at (x ∷ xs) (suc j) = byte_at xs j

-- In a state of the device, a WRITE(6) of `n` bytes at an address is taken as a whole, and the blocks
-- from that address on then have the bytes of the vectors, in their order.
pub record KeepsBlocks {D : Type 0} (dev : SgDevice D) (d : D) (lba n : ℕ) : Type 0 where
  pub new_enough : (is_neg dev.version.0 ≡ false) × (too_old dev.version.1 ≡ false)
  pub taken :
      (m : ℕ → ℕ) (v : List SgIovec)
      → total v ≡ n
      → length v < 2 ^ 16
      → let h = (dev.sg_io d m (header dev 0x0a to_dev lba v)).0 in
        (is_neg h.ret ≡ false) × (result_of h ≡ 0) × (h.resid ≡ pos 0)
  pub kept :
      (m : ℕ → ℕ) (v : List SgIovec)
      → total v ≡ n
      → length v < 2 ^ 16
      → let d' = (dev.sg_io d m (header dev 0x0a to_dev lba v)).2 in
        ReadsBlocks dev d' lba n (byte_at (write m v)) 0

bytes-byte_at :
    (c : ℕ → ℕ) (from : ℕ) (xs : List ℕ)
    → ((j : ℕ) → c (from + j) ≡ byte_at xs j)
    → bytes c from (length xs) ≡ xs
unfolding bytes
bytes-byte_at c from [] h = refl
bytes-byte_at c from (x ∷ xs) h =
    let first : c from ≡ x = subst (λ k. c k ≡ x) (omega arith) (h 0) in
    let rest =
      bytes-byte_at c (from + 1) xs
        (λ j. subst (λ k. c k ≡ byte_at xs j) (omega arith) (h (suc j))) in
    rw first (ap (λ t. x ∷ t) rest)

take-length : (xs : List ℕ) → take (length xs) xs ≡ xs
take-length [] = refl
take-length (x ∷ xs) = ap (λ t. x ∷ t) (take-length xs)

length-take : (n : ℕ) (xs : List ℕ) → n ≤ length xs → length (take n xs) ≡ n
length-take zero xs h = refl
length-take (suc n) [] h = absurd (omega (arith, h))
length-take (suc n) (x ∷ xs) h = omega (arith, length-take n xs (omega (arith, h)))

-- The content that a list gives, read back.
content_of : (n : ℕ) (xs : List ℕ) → length xs ≡ n → take (n - 0) (bytes (byte_at xs) 0 n) ≡ xs
content_of n xs e =
    let same : n - 0 ≡ length xs = omega (arith, e) in
    rw same (
      subst (λ k. take (length xs) (bytes (byte_at xs) 0 k) ≡ xs) e
        (ap (take (length xs))
            (bytes-byte_at (byte_at xs) 0 xs (λ j. ap (byte_at xs) (omega arith)))
          ∙ take-length xs))

module _ {D : Type 0} (dev : SgDevice D) (d : D) (s : Choices) (ok : IsAskable dev.block_size.1 s)
    (keeps : KeepsBlocks dev d (s.offs / dev.block_size.1) (moved s)) where
  abbrev lba : ℕ
  lba = s.offs / dev.block_size.1

  whole : total (layout s) ≡ moved s
  whole = (layout_lem s).2

  -- The run of the program that writes.
  record Written (input : List ℕ) (r : Ending × D) : Type 0 where
    told : r.0 ≡ wrote (moved s) (moved s)
    reads : ReadsBlocks dev r.1 lba (moved s) (byte_at (take (moved s) input)) 0

  abbrev asked : (ℕ → ℕ) → SgAnswer × (ℕ → ℕ) × D
  asked m = dev.sg_io d m (header dev 0x0a to_dev lba (layout s))

  sg_write-eq :
      (m : ℕ → ℕ) → sg_write dev lba (layout s) m d ≡ (pos (moved s), (asked m).1, (asked m).2)
  sg_write-eq m =
      let answer = keeps.taken m (layout s) whole ok.few_vectors in
      unfold sg_write sg_transfer in
      (rw
        (
          layout-sg_acceptable dev.block_size.1 s ok,
          keeps.new_enough.0,
          keeps.new_enough.1,
          answer.0,
          answer.1,
          answer.2,
          counted (data_len (layout s)) (layout-length s ok.length_fits),
        )
        refl)
    where
      counted : (n : ℕ) → n ≡ moved s → signed64 ((n + 2 ^ 64 - 0) % 2 ^ 64) ≡ pos (moved s)
      counted n e =
          let fits : moved s < 2 ^ 30 = omega (arith, moved-le s, ok.length_fits) in
          rw e (small (moved s) fits)
        where
          small : (k : ℕ) → k < 2 ^ 30 → signed64 ((k + 2 ^ 64 - 0) % 2 ^ 64) ≡ pos k
          small k l = ground (arith, l)

  write_data-Written :
      (input : List ℕ)
      → moved s ≤ length input
      → Written input (write_data dev s (record { left = input; gcount = 0 }) (λ a. 0) d)
  write_data-Written input enough =
      let cin : Stdin = record { left = input; gcount = 0 } in
      let filled =
        fill_vectors-IsFilled (layout s) cin (λ a. 0) (layout_lem s).0
          (omega (arith, whole, enough)) in
      let m = (fill_vectors (layout s) cin (λ a. 0)).1 in
      let stored : write m (layout s) ≡ take (moved s) input =
        filled.sent ∙ ap (λ n. take n input) whole in
      let put =
        subst (λ xs. ReadsBlocks dev (asked m).2 lba (moved s) (byte_at xs) 0) stored
          (keeps.kept m (layout s) whole ok.few_vectors) in
      unfold write_data in
      (rw (filled.uncut, sg_write-eq m)
        (record { told = ap (wrote (moved s)) (layout-length s ok.length_fits); reads = put }))

  -- On an open device that keeps what is written, with options that choose a write that can be asked
  -- for and an input that has its bytes, the program tells that it wrote all of them; and a second run,
  -- with options that choose a read of as many bytes from there, prints these bytes of the input.
  -- Either run may have chosen a scattered buffer.
  pub write_then_read :
      (r : Choices) (opts opts' : List Choice) (operands operands' : ℕ) (opened : ℤ)
      (input input' : List ℕ)
      → choices_from default_choices opts ≡ some s
      → s.writes ≡ true
      → choices_from default_choices opts' ≡ some r
      → r.writes ≡ false
      → 0 < operands
      → 0 < operands'
      → is_neg opened ≡ false
      → is_neg dev.block_size.0 ≡ false
      → moved s ≤ length input
      → r.offs ≡ s.offs
      → moved r ≡ moved s
      → IsAskable dev.block_size.1 r
      → let first = main dev opts operands opened input d in
        (first.0 ≡ wrote (moved s) (moved s))
        × ((main dev opts' operands' opened input' first.1).0 ≡ printed (take (moved s) input))
  write_then_read r opts opts' operands operands' opened input input' chosen writing chosen' reading
        some_operand some_operand' is_open known enough offs as_many ok' =
      let operand : ltb operands 1 ≡ false = ground (arith, some_operand) in
      let few : (s.scattered && ltb (2 ^ 28) (s.len / 4)) ≡ false =
        ground (arith, ok.length_fits) in
      let done = write_data-Written input enough in
      let first : main dev opts operands opened input d
          ≡ write_data dev s (record { left = input; gcount = 0 }) (λ a. 0) d =
        unfold main transfer_data in
        (simp (chosen, operand, is_open, known, ok.whole_offset, few, writing) refl) in
      rw first (
        done.told,
        second (write_data dev s (record { left = input; gcount = 0 }) (λ a. 0) d).1 done.reads,
      )
    where
      second :
          (d' : D)
          → ReadsBlocks dev d' lba (moved s) (byte_at (take (moved s) input)) 0
          → (main dev opts' operands' opened input' d').0 ≡ printed (take (moved s) input)
      second d' reads =
          main_prints dev d' (byte_at (take (moved s) input)) 0 r ok' (rw (offs, as_many) reads)
            (omega arith) opts' operands' opened input' chosen' reading some_operand' is_open known
          ∙ ap printed (
              rw as_many
                (content_of (moved s) (take (moved s) input) (length-take (moved s) input enough)))
