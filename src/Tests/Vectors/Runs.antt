-- ===== src/Tests/Vectors/Runs.antt =====
-- dio-offsets.c on a simulated kernel.
use ndt.Base.{ℕ, ◌+◌, ◌%◌, ◌^◌, ◌≡◌, refl, arith, inl}
use ndt.Base.{true, false, map, All, length}
use ndt.DioOffsets.Globals.{Globals, ok, fail, corrupted, init_args, init_buffers}
use ndt.DioOffsets.Globals.Sound.{IsSound}
use ndt.DioOffsets.Spans.{limit_spans, limits_should_fail, iov_size, vector_length_spans}
use ndt.DioOffsets.Spans.Alignment.{length-spans}
use ndt.DioOffsets.Device.{State, from_out}
use ndt.DioOffsets.Suite.{main}
use ndt.DioOffsets.Suite.Passing.{Passes, JudgesLimits}
use ndt.DioOffsets.Suite.Passing.Program.{main-Passes}
use ndt.DioOffsets.Suite.Detecting.Whole.{IsVerified}
use ndt.DioOffsets.Suite.Detecting.Program.{main-IsVerified}
use ndt.DioOffsets.Device.{compare_spans, same_spans, same_bytes}
use ndt.DioOffsets.Spans.{spans}
use ndt.DioOffsets.Suite.{
  cleared, run_tests, write_vectors, write_back, test_max_vector_limits,
  test_invalid_dma_vector_length,
}
use ndt.DioOffsets.Suite.Kernel.{Judges, IsSame}
use ndt.DioOffsets.Suite.Passing.{Takes}
use ndt.DioOffsets.Suite.Flaws.{byte_aligned_fails, vector_length_old}
use ndt.DioOffsets.Suite.Flaws.Limits.{limits_corrupted}
use ndt.Tests.Simulated.{all_acceptable}
use ndt.Tests.Simulated.{
  simulated, simulated-KeepsFiles, simulated-ReadsInto, simulated-Judges, length-map,
}
use ndt.Base.{if◌then◌else◌, ◌==◌, ◌≤◌}
use ndt.DioOffsets.Globals.{
  System, bad_arguments, power_of_2, given, whole_blocks, limited, wanted_size, unrounded, rounded,
}
use ndt.Tests.Vectors.{arguments, host, parameters, accepted, allocated}

-- Any contents will do.
abbrev pattern_bytes : ℕ → ℕ
pattern_bytes j = 1 + j % 251

abbrev start : State (ℕ → ℕ)
start = record { file = λ j. 0; buffers = record { out_mem = pattern_bytes; in_mem = λ j. 0 } }

limits_fail : limits_should_fail (parameters (2 ^ 26)) ≡ true
unfolding limits_should_fail iov_size
limits_fail = refl

limits : JudgesLimits (simulated 6 4) (parameters (2 ^ 26))
limits = record {
  refuses_limits = λ file b h. ground (arith, many);
  takes_limits = λ file b h. absurd (grind (arith, h, limits_fail));
}
  where
    many : length (map from_out (limit_spans (parameters (2 ^ 26)))) ≡ 320
    many =
        unfold limit_spans in
        (omega
          (arith, length-map from_out (limit_spans (parameters (2 ^ 26))), length-spans _ 320 0))

judges : Judges (simulated 6 4) (parameters (2 ^ 26))
judges = simulated-Judges 6 (parameters (2 ^ 26)) (omega arith) (omega arith) (128, refl)

passing : Passes (main (simulated 6 4) host start)
passing =
    main-Passes (simulated 6 4) host (parameters 0) (parameters (2 ^ 26)) accepted allocated
      (omega arith) (omega arith) (omega arith) (1024, refl) (2 ^ 21, refl)
      (simulated-KeepsFiles 6 4) judges (λ h. absurd (grind (arith, h, limits_fail))) limits start

-- The same disk where addresses and lengths have to be whole blocks: here the vectors of the limits
-- test are blocks, and are taken.
abbrev block_host : System
block_host = record host { argument = λ n. if n == 4 then 511 else arguments n }

abbrev block_parameters : ℕ → Globals
block_parameters buf_size = record (parameters buf_size) { dma_alignment = 512 }

block_accepted : init_args block_host ≡ ok (block_parameters 0)
unfolding init_args bad_arguments power_of_2 given whole_blocks limited
block_accepted = refl

block_allocated : init_buffers block_host (block_parameters 0) ≡ ok (block_parameters (2 ^ 26))
unfolding init_buffers wanted_size unrounded rounded
block_allocated = refl

block_limits_pass : limits_should_fail (block_parameters (2 ^ 26)) ≡ false
unfolding limits_should_fail iov_size
block_limits_pass = refl

block_long_enough : 256 ≤ iov_size (block_parameters (2 ^ 26))
unfolding iov_size
block_long_enough = omega arith

block_limits : JudgesLimits (simulated 400 512) (block_parameters (2 ^ 26))
unfolding limit_spans spans iov_size all_acceptable
block_limits = record {
  refuses_limits = λ file b h. absurd (grind (arith, h, block_limits_pass));
  takes_limits = λ file b h. refl;
}

main-Passes_example : Passes (main (simulated 400 512) block_host start)
main-Passes_example =
    main-Passes (simulated 400 512) block_host (block_parameters 0) (block_parameters (2 ^ 26))
      block_accepted block_allocated (omega arith) (omega arith) (omega arith) (8, refl)
      (2 ^ 21, refl) (simulated-KeepsFiles 400 512)
      (simulated-Judges 400 (block_parameters (2 ^ 26)) (omega arith) (omega arith) (1, refl))
      (λ h. block_long_enough) block_limits start

main-IsVerified_example :
    (args : Globals) × (g : Globals) × (init_args host ≡ ok args)
    × IsSound args
    × (init_buffers host args ≡ ok g)
    × IsVerified (simulated 6 4) g start passing.0
main-IsVerified_example = main-IsVerified (simulated 6 4) host start passing.0 passing.1

-- Globals whose vectors of the limits test have 2 bytes, where blocks have 8.
abbrev short_vectors : Globals
short_vectors = record {
  logical_block_size = 8;
  dma_alignment = 2;
  virt_boundary = 1;
  max_segments = 128;
  max_bytes = 64;
  pagesize = 64;
  buf_size = 2 ^ 15;
}

abbrev ones : State (ℕ → ℕ)
ones = record { file = λ j. 0; buffers = record { out_mem = λ j. 1; in_mem = λ j. 0 } }

limits_pass : limits_should_fail short_vectors ≡ false
unfolding limits_should_fail iov_size
limits_pass = refl

iov_two : iov_size short_vectors ≡ 2
unfolding iov_size
iov_two = refl

limits_taken :
    Takes
      (simulated 400 2)
      (map from_out (limit_spans short_vectors))
      (cleared (simulated 400 2) short_vectors ones)
unfolding limit_spans spans iov_size all_acceptable
limits_taken = refl

limits_corrupted_example :
    test_max_vector_limits (simulated 400 2) short_vectors ones ≡ fail corrupted
limits_corrupted_example =
    limits_corrupted (simulated 400 2) short_vectors (simulated-ReadsInto 400 2) ones
      (omega (arith, iov_two)) limits_pass limits_taken refl 2 (omega (arith, iov_two))
      (omega (arith, iov_two)) (omega arith) (omega arith) (omega arith)

-- A device that takes any address.
abbrev bytes : Globals
bytes = record {
  logical_block_size = 4;
  dma_alignment = 1;
  virt_boundary = 1;
  max_segments = 32;
  max_bytes = 8;
  pagesize = 4096;
  buf_size = 2 ^ 14;
}

bytes-IsSound : IsSound bytes
bytes-IsSound = record {
  block_power = (2, refl);
  dma_power = (0, refl);
  dma_fits = omega arith;
  boundary = inl refl;
  segments_limited = omega arith;
  bytes_limited = omega arith;
  bytes_whole = (2, refl);
}

byte_aligned_fails_example : ¬ Passes (run_tests (simulated 6 1) bytes ones)
byte_aligned_fails_example =
    byte_aligned_fails (simulated 6 1) bytes bytes-IsSound refl (omega arith)
      (simulated-Judges 6 bytes (omega arith) (omega arith) (4, refl)) ones

abbrev same : State (ℕ → ℕ)
same = record { file = λ j. 0; buffers = record { out_mem = λ j. 1; in_mem = λ j. 1 } }

same_passes :
    test_invalid_dma_vector_length (simulated 6 1) bytes same ≡ ok (record same { file = λ j. 1 })
unfolding test_invalid_dma_vector_length write_vectors write_back compare_spans vector_length_spans
    same_spans same_bytes all_acceptable
same_passes = refl

vector_length_old_example : All (IsSame same.buffers) (vector_length_spans bytes)
vector_length_old_example =
    vector_length_old (simulated 6 1) bytes same (record same { file = λ j. 1 }) refl same_passes
