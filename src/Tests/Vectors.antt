-- ===== src/Tests/Vectors.antt =====
-- The arguments, the buffers and the vectors of dio-offsets.c for one disk.
pub mod Runs
use ndt.Base.{
  ℕ, zero, suc, ◌+◌, ◌-◌, ◌*◌, ◌/◌, ◌%◌, ◌==◌, ◌^◌, ◌≤◌, ◌<◌, ◌≡◌, refl, arith, inl, inr, pos,
}
use ndt.Base.{true, false, List, [], ◌∷◌, map, All, length, ltb, if◌then◌else◌, is_neg}
use ndt.DioOffsets.Globals.{
  Globals, System, ok, fail, corrupted, init_args, init_buffers, wanted_size, Outcome,
  bad_arguments, power_of_2, given, whole_blocks, limited, unrounded, rounded,
}
use ndt.DioOffsets.Globals.Sound.{IsSound, init_args-IsSound}
use ndt.DioOffsets.Globals.Room.{init_buffers_room}
use ndt.DioOffsets.Spans.{Span, limit_spans, limits_should_fail, iov_size}
use ndt.DioOffsets.Spans.Bounds.{IsInside, tests}
use ndt.DioOffsets.Spans.Bounds.Program.{IsUsual, program_in_bounds}

-- A disk of 1 GiB with blocks of 512 bytes that wants addresses that 4 divides.
abbrev pub arguments : ℕ → ℕ
arguments n =
    if n == 2
    then 128
    else (if n == 3 then 1024 else (if n == 4 then 3 else (if n == 6 then 512 else 0)))

abbrev pub host : System
host = record {
  argc = 7;
  argument = arguments;
  opened = pos 3;
  page_size = 4096;
  size_ret = pos 0;
  dev_bytes = 2 ^ 30;
  in_memalign = pos 0;
  out_memalign = pos 0;
  urandom = pos 4;
  random_read = pos 1024;
}

abbrev pub parameters : ℕ → Globals
parameters buf_size = record {
  logical_block_size = 512;
  dma_alignment = 4;
  virt_boundary = 1;
  max_segments = 128;
  max_bytes = 2 ^ 20;
  pagesize = 4096;
  buf_size = buf_size;
}

pub accepted : init_args host ≡ ok (parameters 0)
unfolding init_args bad_arguments power_of_2 given whole_blocks limited
accepted = refl

pub allocated : init_buffers host (parameters 0) ≡ ok (parameters (2 ^ 26))
unfolding init_buffers wanted_size unrounded rounded
allocated = refl

init_args-IsSound_example : IsSound (parameters 0)
init_args-IsSound_example = init_args-IsSound host (parameters 0) accepted

pub sound : IsSound (parameters 0)
sound = init_args-IsSound host (parameters 0) accepted

init_buffers_room_example :
    (2 * 512 ≤ 2 ^ 20)
    × (parameters (2 ^ 26) ≡ record (parameters 0) {
      buf_size =
          if ltb (2 ^ 30) (wanted_size (parameters 0)) then 2 ^ 30 else wanted_size (parameters 0);
    })
init_buffers_room_example =
    init_buffers_room (parameters 0) sound (omega arith) host (parameters (2 ^ 26)) (omega arith)
      allocated

pub usual : IsUsual (parameters 0)
usual = record {
  block_small = omega arith;
  enough_segments = omega arith;
  page_small = omega arith;
  page_few_blocks = omega arith;
  block_few_pages = omega arith;
  dma_in_page = omega arith;
}

wanted : wanted_size (parameters 0) ≤ 2 ^ 30
unfolding wanted_size unrounded rounded
wanted = omega arith

program_in_bounds_example : All (All (IsInside (parameters (2 ^ 26)))) (tests (parameters (2 ^ 26)))
program_in_bounds_example =
    program_in_bounds host (parameters 0) (parameters (2 ^ 26)) accepted allocated usual wanted

-- The same disk with 8 MiB.
abbrev small_host : System
small_host = record host { dev_bytes = 2 ^ 23 }

allocated_small : init_buffers small_host (parameters 0) ≡ ok (parameters (2 ^ 23))
unfolding init_buffers wanted_size unrounded rounded
allocated_small = refl
