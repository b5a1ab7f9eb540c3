-- ===== src/DioOffsets/Suite/Passing/Program.antt =====
-- The whole program on a kernel that does what the tests expect.
use ndt.Base.{Bool-cases, false, inl, inr, refl}
use ndt.Base.{ℕ, ◌^◌, ◌≤◌, ◌<◌, ◌≡◌, sym, subst, arith, ltb, if◌then◌else◌, IsMultiple}
use ndt.DioOffsets.Globals.{Globals, System, ok, init_args, init_buffers, wanted_size}
use ndt.DioOffsets.Globals.Sound.{IsSound, init_args-IsSound}
use ndt.DioOffsets.Globals.Room.{wanted_size_lem, init_buffers_room}
use ndt.Base.{◌/◌}
use ndt.DioOffsets.Spans.{iov_size, limits_should_fail}
use ndt.DioOffsets.Device.{Device, State}
use ndt.DioOffsets.Suite.{main, run_tests}
use ndt.DioOffsets.Suite.Kernel.{KeepsFiles, Judges}
use ndt.DioOffsets.Suite.Passing.{Passes, JudgesLimits}
use ndt.DioOffsets.Suite.Passing.Whole.{run_tests-Passes}

-- Setting the size of the buffers keeps the globals sound.
pub sized-IsSound : (g : Globals) (n : ℕ) → IsSound g → IsSound (record g { buf_size = n })
sized-IsSound g n sound = record {
  block_power = sound.block_power;
  dma_power = sound.dma_power;
  dma_fits = sound.dma_fits;
  boundary = sound.boundary;
  segments_limited = sound.segments_limited;
  bytes_limited = sound.bytes_limited;
  bytes_whole = sound.bytes_whole;
}

-- The globals of the tests: sound, with buffers of whole blocks.
allocated_lem :
    (sys : System) (args g : Globals)
    → IsSound args
    → init_buffers sys args ≡ ok g
    → args.logical_block_size ≤ 2 ^ 20
    → 0 < args.max_segments
    → IsMultiple args.logical_block_size sys.dev_bytes
    → IsSound g
      × (g.logical_block_size ≡ args.logical_block_size)
      × (g.dma_alignment ≡ args.dma_alignment)
      × (g.pagesize ≡ args.pagesize)
      × IsMultiple g.logical_block_size g.buf_size
allocated_lem sys args g sound allocated small some_segment whole_device =
    let (two, same) =
      init_buffers_room args sound (omega (arith, small)) sys g some_segment allocated in
    let (whole, blocks, half) = wanted_size_lem args sound (omega (arith, small)) in
    subst
      (λ t.
        IsSound t
        × (t.logical_block_size ≡ args.logical_block_size)
        × (t.dma_alignment ≡ args.dma_alignment)
        × (t.pagesize ≡ args.pagesize)
        × IsMultiple t.logical_block_size t.buf_size)
      (sym same)
      (
        sized-IsSound args _ sound,
        refl,
        refl,
        refl,
        smaller_whole args.logical_block_size sys.dev_bytes (wanted_size args) whole_device whole,
      )
  where
    smaller_whole :
        (lb d w : ℕ) → IsMultiple lb d → IsMultiple lb w → IsMultiple lb (if ltb d w then d else w)
    smaller_whole lb d w p q = elim (Bool-cases (ltb d w)) [ inl h ↦ rw h p | inr h ↦ rw h q ]

-- The program succeeds when its arguments are accepted and its buffers allocated, on a device of
-- whole blocks of at most 1 MiB, with an alignment above 1 that divides the page size and at least
-- one segment, where the vectors of the limits test, if they should not fail, have at least half a
-- block, and on a kernel that gives back what it took, refuses null and unaligned vectors,
-- takes up to five aligned ones and judges the vector limits as the test expects.
pub main-Passes :
    {D : Type 0} (dev : Device D) (sys : System) (args g : Globals)
    → init_args sys ≡ ok args
    → init_buffers sys args ≡ ok g
    → args.logical_block_size ≤ 2 ^ 20
    → 1 < args.dma_alignment
    → 0 < args.max_segments
    → IsMultiple args.dma_alignment args.pagesize
    → IsMultiple args.logical_block_size sys.dev_bytes
    → KeepsFiles dev
    → Judges dev g
    → (limits_should_fail g ≡ false → g.logical_block_size / 2 ≤ iov_size g)
    → JudgesLimits dev g
    → (s : State D) → Passes (main dev sys s)
main-Passes dev sys args g accepted allocated small rough some_segment pages blocks keeps judges
      long_enough limits s =
    let (sound, lb, dma, page, whole) =
      allocated_lem sys args g (init_args-IsSound sys args accepted) allocated small some_segment
        blocks in
    let (s', passed) =
      run_tests-Passes dev g sound (omega (arith, lb, small)) keeps judges
        (omega (arith, dma, rough)) (grind (arith, pages, dma, page)) whole long_enough limits s in
    (s', finished s' passed)
  where
    enough : ltb sys.argc 2 ≡ false
    enough = unfold init_args in ground (arith, accepted)

    finished : (s' : State _) → run_tests dev g s ≡ ok s' → main dev sys s ≡ ok s'
    finished s' passed = unfold main in (rw (enough, accepted, allocated) passed)
