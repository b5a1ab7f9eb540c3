-- ===== src/Tests/Registers.antt =====
-- pcimem.c on registers of which each two neighbours hold the same value.
use ndt.Base.{ℕ, ◌+◌, ◌/◌, ◌≡◌, refl, arith, true, false, [], ◌∷◌}
use ndt.Pcimem.{
  Device, Arguments, System, finished, unset_address, value_line, dots_line, read_value, dump,
  write_last, type_width, access_type_of, items_of, type_of, overflows, turns_of, map_size, access,
  map_and_access, main,
}
use ndt.Pcimem.Dump.{values, undump, undump-dump}

abbrev registers : Device ℕ
registers = record { read_at = λ width at s. (at / 8 + s, s); write_at = λ width at v s. v }

abbrev machine : System
machine = record { page_size = 4096; opens = true; maps = λ size base. true; unmaps = true }

-- `pcimem file 4096 w*<count>`, and a word to write if there are five arguments.
abbrev command : ℕ → ℕ → Arguments
command argc count = record {
  argc = argc;
  offset = 4096;
  type_char = b'w';
  starred = true;
  count = count;
  data_word = 5;
}

dumped :
    main registers machine (command 4 4) 0
    ≡ finished (value_line 4096 512 ∷ dots_line ∷ value_line 4104 513 ∷ dots_line ∷ []) 0
unfolding main type_of access_type_of type_width map_and_access items_of overflows map_size turns_of
    access dump write_last read_value
dumped = refl

-- With no items there is no address to write at.
unset : main registers machine (command 5 0) 0 ≡ unset_address
unfolding main type_of access_type_of type_width map_and_access items_of overflows map_size turns_of
    access dump write_last read_value
unset = refl

undump-dump_example :
    undump 4096 4 4 0 0 (dump registers 4096 4 4 0 0 false 0).0 ≡ values registers 4096 4 4 0 0
undump-dump_example = undump-dump registers 4096 4 (omega arith) 4 0 (omega arith)
