-- ===== src/DioOffsets/Spans/Bounds/Program.antt =====
-- The buffers that `init_buffers` allocates are long enough for all tests.
use ndt.Base.{ℕ, ◌*◌, ◌/◌, ◌^◌, ◌≤◌, ◌<◌, ◌≡◌, sym, ap, ◌∙◌, subst, arith, if◌then◌else◌, ltb, All}
use ndt.Base.{IsPower-pos, refl}
use ndt.DioOffsets.Spans.{vector_length_spans}
use ndt.DioOffsets.Globals.{Globals, System, ok, init_args, init_buffers, wanted_size}
use ndt.DioOffsets.Globals.Sound.{IsSound, init_args-IsSound}
use ndt.DioOffsets.Globals.Room.{wanted_size_lem, init_buffers_room}
use ndt.DioOffsets.Spans.Bounds.{IsRoomy, IsInside, tests, tests-IsInside}

-- Pages and blocks that the tests are made for.
pub record IsUsual (g : Globals) : Type 0 where
  pub block_small : g.logical_block_size ≤ 2 ^ 20
  pub enough_segments : 26 ≤ g.max_segments
  pub page_small : g.pagesize ≤ 2 ^ 16
  pub page_few_blocks : g.pagesize ≤ 128 * g.logical_block_size
  pub block_few_pages : g.logical_block_size ≤ 2 * g.pagesize
  pub dma_in_page : g.dma_alignment ≤ g.pagesize

many_transfers : (m s : ℕ) → 26 ≤ s → 13 * m ≤ m * s / 2
many_transfers m s h = grind arith

module _ (g : Globals) (sound : IsSound g) (usual : IsUsual g) where
  allocated-IsRoomy :
      2 * g.logical_block_size ≤ g.max_bytes → IsRoomy (record g { buf_size = wanted_size g })
  allocated-IsRoomy two =
      let (whole, blocks, half) = wanted_size_lem g sound (omega (arith, usual.block_small)) in
      record {
        some_block = IsPower-pos sound.block_power;
        block_small = usual.block_small;
        some_alignment = IsPower-pos sound.dma_power;
        dma_fits = sound.dma_fits;
        bytes_limited = sound.bytes_limited;
        two_blocks = two;
        page_small = usual.page_small;
        page_few_blocks = usual.page_few_blocks;
        block_few_pages = usual.block_few_pages;
        dma_in_page = usual.dma_in_page;
        blocks_fit = blocks;
        transfers_fit =
            omega (arith, half, many_transfers g.max_bytes g.max_segments usual.enough_segments);
      }

-- When `init_args` and `init_buffers` succeed, for blocks of at most 1 MiB, at least 26 segments,
-- pages of at most 64 KiB that are at most 128 blocks, at least half a block and at least the
-- alignment, and a device at least as large as the wanted size, then every vector of every test ends
-- within the buffers.
pub program_in_bounds :
    (sys : System) (args g : Globals)
    → init_args sys ≡ ok args
    → init_buffers sys args ≡ ok g
    → IsUsual args
    → wanted_size args ≤ sys.dev_bytes
    → All (All (IsInside g)) (tests g)
program_in_bounds sys args g accepted allocated usual large =
    let sound = init_args-IsSound sys args accepted in
    let (two, same) =
      init_buffers_room args sound (omega (arith, usual.block_small)) sys g
        (omega (arith, usual.enough_segments)) allocated in
    let full : (if ltb sys.dev_bytes (wanted_size args) then sys.dev_bytes else wanted_size args)
        ≡ wanted_size args =
      ground arith in
    let rooms : IsRoomy (record args { buf_size = wanted_size args }) =
      allocated-IsRoomy args sound usual two in
    tests-IsInside g
      (subst IsRoomy (sym (same ∙ ap (λ n. record args { buf_size = n }) full)) rooms)

allocated-le :
    (sys : System) (args g : Globals)
    → init_buffers sys args ≡ ok g
    → (g.buf_size ≤ sys.dev_bytes) × (g.max_bytes ≡ args.max_bytes)
unfolding init_buffers
allocated-le sys args g h =
    let same : (record args {
      buf_size = if ltb sys.dev_bytes (wanted_size args) then sys.dev_bytes else wanted_size args;
    })
        ≡ g =
      ground arith in
    subst (λ t. (t.buf_size ≤ sys.dev_bytes) × (t.max_bytes ≡ args.max_bytes)) same
      (ground arith, refl)

-- On a device of at most twelve largest transfers, `test_invalid_dma_vector_length` is given vectors
-- that do not all end within the buffers, if a largest transfer has any byte.
small_device_outside :
    (sys : System) (args g : Globals)
    → init_buffers sys args ≡ ok g
    → 0 < args.max_bytes
    → sys.dev_bytes ≤ 12 * args.max_bytes
    → ¬ All (IsInside g) (vector_length_spans g)
unfolding vector_length_spans
small_device_outside sys args g h some_byte few (_, (_, (_, (last, _)))) =
    let (fits, same) = allocated-le sys args g h in omega (arith, fits, same, last)
