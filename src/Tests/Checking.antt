-- ===== src/Tests/Checking.antt =====
-- A disk with 16 bytes of metadata per block, and a device that keeps what it is given.
use ndt.Base.{ℕ, ◌+◌, ◌%◌, ◌^◌, ◌≤◌, ◌<◌, ◌≡◌, ◌↔◌, refl, arith, true, inr, pos}
use ndt.Metadata.Tags.{put_unaligned_be48, get_unaligned_be48, get-put_unaligned_be48}
use ndt.Metadata.Pattern.{
  Capabilities, init_capabilities, tuple_of, tuple_size, t10_pi_tuple, check_tag, pre_byte,
  post_byte, init_metadata, check_metadata,
}
use ndt.Metadata.Pattern.{
  check_from, check_interval, check_bytes, check_tag, next_interval, remaining, load32, init_from,
  init_interval, put_tag, store32,
}
use ndt.Metadata.Tags.{swap}
use ndt.Base.{fill, ◌%◌}
use ndt.Metadata.Pattern.Detection.{HoldsTag, check_metadata_sound}
use ndt.Metadata.Pattern.RoundTrip.{Fits, check_metadata-init_metadata, init_metadata_outside}
use ndt.Metadata.Program.{
  metabuffer_tx_size, metabuffer_size, pi_buf, Answer, request_ok, Device, System, main,
}
use ndt.Metadata.Program.Success.{IsWithin, pi_buf_fits_iff, IsFaithful, SetUp, main_succeeds}

-- A guard tag of eight bytes behind eight bytes of other metadata.
abbrev t10 : Capabilities
t10 = record {
  lba_size = 512;
  metadata_size = 16;
  pi_size = 8;
  pi_offset = 4;
  reftag_enabled = true;
}

t10_tuple : tuple_of t10 ≡ t10_pi_tuple
unfolding tuple_of
t10_tuple = refl

t10-Fits : Fits t10
t10-Fits = rw t10_tuple (omega arith)

abbrev zeros : ℕ → ℕ
zeros a = 0

-- Two intervals, from byte 4 on, with reference tags 5 and 6.
abbrev buffer : ℕ → ℕ
buffer = init_metadata t10 4 2 5 zeros

check_metadata-init_metadata_example : check_metadata t10 4 2 5 buffer ≡ pos 0
check_metadata-init_metadata_example =
    check_metadata-init_metadata t10 t10-Fits 4 2 5 zeros buffer (omega arith) (λ a l u. refl)

-- The same bytes.
abbrev stored : ℕ → ℕ
stored a = buffer a % 256

stored_passes : check_metadata t10 4 2 5 stored ≡ pos 0
unfolding check_metadata check_from check_interval check_bytes check_tag next_interval remaining
    tuple_of load32 swap init_metadata init_from init_interval fill put_tag store32
stored_passes = refl

check_metadata_sound_example :
    let size = tuple_size (tuple_of t10) in
    ((j : ℕ) → j < 4 → stored (20 + j) ≡ pre_byte 1 6 j)
    × HoldsTag (tuple_of t10) 6 24 stored
    × ((j : ℕ) → 4 + size + j < 16 → stored (24 + size + j) ≡ post_byte 1 6 j)
check_metadata_sound_example =
    check_metadata_sound t10 4 2 5 stored (λ a. omega arith) stored_passes 1 (omega arith)

init_metadata_outside_example : buffer 36 ≡ 0
init_metadata_outside_example =
    init_metadata_outside t10 t10-Fits 4 2 5 zeros 36 (inr (omega arith))

get-put_unaligned_be48_example :
    get_unaligned_be48 3 (put_unaligned_be48 0x123456789abc 3 zeros) ≡ 0x123456789abc % 2 ^ 48
get-put_unaligned_be48_example = get-put_unaligned_be48 0x123456789abc 3 zeros

pi_buf_fits_iff_example :
    ((offset : ℕ)
      → offset < 512
      → IsWithin (pi_buf offset + metabuffer_tx_size t10) (metabuffer_size t10))
    ↔ ((2044 ≤ metabuffer_tx_size t10) × (metabuffer_tx_size t10 < 2 ^ 30))
pi_buf_fits_iff_example = pi_buf_fits_iff t10 (omega arith)

abbrev success : Answer
success = record { has_sqe = true; submitted = pos 1; waited = pos 0; res = pos 0 }

-- It keeps the data and the metadata of the last write.
abbrev keeper : Device ((ℕ → ℕ) × (ℕ → ℕ))
keeper = record {
  write_at = λ d at p x y. (success, (x, y));
  read_at = λ d at p x y. (success, d.0, d.1, d);
}

keeper-IsFaithful : IsFaithful keeper t10
unfolding request_ok
keeper-IsFaithful = record {
  writes = λ d at p x y. refl;
  reads = λ d at p x y x' y'. refl;
  keeps_data = λ d at p x y x' y' a h. refl;
  keeps_metadata = λ d at p x y x' y' a l u. refl;
}

abbrev computer : System
computer = record {
  argc = 2;
  fd = pos 3;
  cap_ret = pos 0;
  md_cap = record {
    lbmd_flags = 3;
    lbmd_interval = 512;
    lbmd_size = 16;
    lbmd_pi_size = 8;
    lbmd_pi_offset = 4;
  };
  data_memalign = 0;
  pi_memalign = 0;
  queue_init = pos 0;
  first_sqe = true;
  second_sqe = true;
  submitted = pos 2;
  reaped = pos 0;
}

computer-SetUp : SetUp keeper t10 keeper-IsFaithful t10-Fits computer t10
computer-SetUp = record {
  given = refl;
  opened = refl;
  queried = refl;
  capabilities = unfold init_capabilities in refl;
  lba_size_set = refl;
  metadata_size_set = refl;
  data_allocated = refl;
  pi_allocated = refl;
  ring_made = refl;
  entries = refl;
  last_submitted = refl;
}

main_succeeds_example :
    main keeper computer t10 (record { device = (zeros, zeros); data_buf = zeros; pi_mem = zeros })
    ≡ pos 0
main_succeeds_example =
    main_succeeds keeper t10 keeper-IsFaithful t10-Fits computer t10
      (record { device = (zeros, zeros); data_buf = zeros; pi_mem = zeros }) computer-SetUp
