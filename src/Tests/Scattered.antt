-- ===== src/Tests/Scattered.antt =====
-- discontiguous-io on a device of 16-byte blocks that keeps what it is sent.
use ndt.Base.{ℕ, ◌+◌, ◌*◌, ◌<◌, ◌≡◌, refl, arith, true, false, ◌==◌, if◌then◌else◌}
use ndt.Base.{List, [], ◌∷◌, some, pos, fill, fill_inside}
use ndt.DiscontiguousIo.Iovec.{SgIovec, data_len, trunc_from, trunc, bytes, write}
use ndt.DiscontiguousIo.Iovec.Trunc.{take, data_len-total, IsCut, trunc-IsCut}
use ndt.DiscontiguousIo.Iovec.Gather.{place}
use ndt.DiscontiguousIo.Command.{
  SgIoHdr, SgAnswer, SgDevice, from_dev, rw6, header, result_of, sg_acceptable,
}
use ndt.DiscontiguousIo.Command.Encoding.{decode6, header-decodes}
use ndt.DiscontiguousIo.Program.{
  Choice, o_opt, l_opt, s_opt, w_opt, Choices, default_choices, choices_from, scattered_from,
  layout, command_failed, printed, wrote, main,
}
use ndt.DiscontiguousIo.Program.Reading.{ReadsBlocks, IsAskable, main_prints}
use ndt.DiscontiguousIo.Program.Writing.{short_input_refused}
use ndt.DiscontiguousIo.Program.RoundTrip.{byte_at, KeepsBlocks, write_then_read}

abbrev good : SgAnswer
good = record {
  ret = pos 0;
  status = 0;
  msg_status = 0;
  host_status = 0;
  driver_status = 0;
  resid = pos 0;
}

abbrev carry_out : (ℕ → ℕ) → (ℕ → ℕ) → SgIoHdr → (ℕ × ℕ × ℕ) → SgAnswer × (ℕ → ℕ) × (ℕ → ℕ)
carry_out d m h (op, lba, blocks) = (
  good,
  if op == 0x08 then place h.vectors (λ j. d (lba * 16 + j)) 0 m else m,
  if op == 0x0a then fill (blocks * 16) 0 (lba * 16) (byte_at (write m h.vectors)) d else d,
)

abbrev disk : SgDevice (ℕ → ℕ)
disk = record {
  block_size = (pos 0, 16);
  version = (pos 0, pos 30534);
  sg_io = λ d m h. carry_out d m h (decode6 h.cmd);
}

abbrev empty : ℕ → ℕ
empty a = 0

disk-ReadsBlocks :
    (d content : ℕ → ℕ)
    → ((j : ℕ) → j < 16 → d (32 + j) ≡ content j)
    → ReadsBlocks disk d 2 16 content 0
disk-ReadsBlocks d content agree = record {
  new_enough = (refl, refl);
  taken = λ m v e l. (refl, unfold result_of in refl, refl);
  placed = λ m v e l. ((λ j. d (32 + j)), agree, unfold header rw6 in refl);
}

disk-KeepsBlocks : (d : ℕ → ℕ) → KeepsBlocks disk d 2 16
disk-KeepsBlocks d = record {
  new_enough = (refl, refl);
  taken = λ m v e l. (refl, unfold result_of in refl, refl);
  kept = λ m v e l. disk-ReadsBlocks _ _ (λ j below.
      unfold header rw6 in
      (rw (data_len-total v (omega (arith, e)), e)
        (fill_inside 16 0 32 (byte_at (write m v)) d j (omega arith) (omega (arith, below)))));
}

-- 21 bytes of input.
abbrev some_input : List ℕ
some_input = 8 ∷ 6 ∷ 7 ∷ 5 ∷ 3 ∷ 0 ∷ 9 ∷ 8 ∷ 6 ∷ 7 ∷ 5 ∷ 3 ∷ 0 ∷ 9 ∷ 1 ∷ 2 ∷ 3 ∷ 4 ∷ 5 ∷ 6 ∷ 7 ∷ []

-- -w -s -l 18 -o 32, and -l 16 -o 32.
abbrev scattered_write : Choices
scattered_write = record { scattered = true; writes = true; offs = 32; len = 18 }

abbrev plain_read : Choices
plain_read = record { scattered = false; writes = false; offs = 32; len = 16 }

abbrev write_opts : List Choice
write_opts = w_opt ∷ s_opt ∷ l_opt 18 ∷ o_opt 32 ∷ []

abbrev read_opts : List Choice
read_opts = l_opt 16 ∷ o_opt 32 ∷ []

write_opts_test : choices_from default_choices write_opts ≡ some scattered_write
unfolding choices_from default_choices
write_opts_test = refl

read_opts_test : choices_from default_choices read_opts ≡ some plain_read
unfolding choices_from default_choices
read_opts_test = refl

scattered_write-IsAskable : IsAskable 16 scattered_write
unfolding layout scattered_from
scattered_write-IsAskable = record {
  some_size = omega arith;
  whole_offset = refl;
  short_address = omega arith;
  some_bytes = omega arith;
  whole_blocks = refl;
  few_blocks = omega arith;
  length_fits = omega arith;
  few_vectors = omega arith;
}

plain_read-IsAskable : IsAskable 16 plain_read
unfolding layout scattered_from
plain_read-IsAskable = record {
  some_size = omega arith;
  whole_offset = refl;
  short_address = omega arith;
  some_bytes = omega arith;
  whole_blocks = refl;
  few_blocks = omega arith;
  length_fits = omega arith;
  few_vectors = omega arith;
}

write_then_read_example :
    let first = main disk write_opts 1 (pos 3) some_input empty in
    (first.0 ≡ wrote 16 16)
    × ((main disk read_opts 1 (pos 3) [] first.1).0 ≡ printed (take 16 some_input))
write_then_read_example =
    write_then_read disk empty scattered_write scattered_write-IsAskable (disk-KeepsBlocks empty)
      plain_read write_opts read_opts 1 1 (pos 3) some_input [] write_opts_test refl read_opts_test
      refl (omega arith) (omega arith) refl refl (omega arith) refl refl plain_read-IsAskable

-- Each byte of the device is its address.
abbrev counting : ℕ → ℕ
counting a = a

main_prints_example :
    (main disk read_opts 1 (pos 3) [] counting).0 ≡ printed (bytes (λ j. 32 + j) 0 16)
unfolding bytes
main_prints_example =
    main_prints disk counting (λ j. 32 + j) 0 plain_read plain_read-IsAskable
      (disk-ReadsBlocks counting (λ j. 32 + j) (λ j l. refl)) (omega arith) read_opts 1 (pos 3) []
      read_opts_test refl (omega arith) refl refl

abbrev two_vectors : List SgIovec
two_vectors = record { iov_base = 4; iov_len = 4 } ∷ record { iov_base = 12; iov_len = 4 } ∷ []

trunc-IsCut_example : IsCut counting two_vectors 7 (trunc two_vectors 7)
trunc-IsCut_example = trunc-IsCut counting two_vectors 7 (omega arith) (omega arith)

trunc_test :
    trunc two_vectors 7
    ≡ some (record { iov_base = 4; iov_len = 4 } ∷ record { iov_base = 12; iov_len = 3 } ∷ [])
unfolding trunc trunc_from
trunc_test = refl

header-decodes_example :
    (blocks : ℕ) × (decode6 (header disk 0x08 from_dev 2 (layout plain_read)).cmd
      ≡ (0x08, 2, blocks))
    × (blocks * 16 ≡ data_len (layout plain_read))
    × ((header disk 0x08 from_dev 2 (layout plain_read)).dxfer_len ≡ data_len (layout plain_read))
header-decodes_example =
    header-decodes disk 0x08 from_dev 2 (layout plain_read) (omega arith) (omega arith)
      (unfold sg_acceptable layout data_len in refl)

-- Half of the input is missing.
short_input_refused_example :
    main disk write_opts 1 (pos 3) (1 ∷ 2 ∷ 3 ∷ 4 ∷ 5 ∷ 6 ∷ 7 ∷ 8 ∷ []) empty
    ≡ (command_failed, empty)
short_input_refused_example =
    short_input_refused disk scattered_write write_opts 1 (pos 3)
      (1 ∷ 2 ∷ 3 ∷ 4 ∷ 5 ∷ 6 ∷ 7 ∷ 8 ∷ []) empty write_opts_test refl refl (omega arith)
      (omega arith) refl refl (omega arith) refl (omega arith) refl (omega arith)
