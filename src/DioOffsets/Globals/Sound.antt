-- ===== src/DioOffsets/Globals/Sound.antt =====
-- What accepted arguments are like.
use ndt.Base.{ℕ, ◌+◌, ◌/◌, ◌^◌, ◌≤◌, ◌<◌, ◌≡◌, ◌⊎◌, inl, inr, subst, arith}
use ndt.Base.{true, false}
use ndt.Base.{IsPower, IsMultiple, IsPower-of_test, IsPower-pos, bit_and-power}
use ndt.DioOffsets.Words.{u64}
use ndt.DioOffsets.Globals.{
  Globals, System, ok, power_of_2, bad_arguments, limited, whole_blocks, given, init_args,
}

pub record IsSound (g : Globals) : Type 0 where
  pub block_power : IsPower g.logical_block_size
  pub dma_power : IsPower g.dma_alignment
  pub dma_fits : g.dma_alignment ≤ g.logical_block_size
  pub boundary : (g.virt_boundary ≡ 1) ⊎ (g.logical_block_size ≤ g.virt_boundary)
  pub segments_limited : g.max_segments ≤ 4096
  pub bytes_limited : g.max_bytes ≤ 2 ^ 24
  pub bytes_whole : IsMultiple g.logical_block_size g.max_bytes

power_of_2-IsPower : (x : ℕ) → power_of_2 x ≡ true → IsPower x
unfolding power_of_2
power_of_2-IsPower x h = IsPower-of_test x (ground arith) (ground arith)

good_arguments :
    (virt dma lb : ℕ)
    → bad_arguments virt dma lb ≡ false
    → (power_of_2 virt ≡ true)
      × (power_of_2 dma ≡ true)
      × (power_of_2 lb ≡ true)
      × (dma ≤ lb)
      × ((virt ≤ 1) ⊎ (lb ≤ virt))
unfolding bad_arguments
good_arguments virt dma lb h =
    (ground arith, ground arith, ground arith, ground arith, ground arith)

limited-le : (kib : ℕ) → limited kib ≤ 2 ^ 24
unfolding limited
limited-le kib = ground arith

whole_blocks_lem :
    (bytes lb : ℕ)
    → IsPower lb
    → (whole_blocks bytes lb ≤ bytes) × IsMultiple lb (whole_blocks bytes lb)
unfolding whole_blocks
whole_blocks_lem bytes lb p =
    let masked = bit_and-power p bytes in
    (ground arith, (bytes / lb, grind (arith, masked, IsPower-pos p)))

accepts :
    (sys : System) (g : Globals)
    → init_args sys ≡ ok g
    → (bad_arguments (u64 (sys.argument 5 + 1)) (u64 (sys.argument 4 + 1)) (sys.argument 6) ≡ false)
      × (given sys ≡ g)
unfolding init_args
accepts sys g h = ground arith

given-IsSound :
    (sys : System)
    → bad_arguments (u64 (sys.argument 5 + 1)) (u64 (sys.argument 4 + 1)) (sys.argument 6) ≡ false
    → IsSound (given sys)
unfolding given
given-IsSound sys good =
    let lb = sys.argument 6 in
    let (virt, dma, block, fits, boundary) =
      good_arguments (u64 (sys.argument 5 + 1)) (u64 (sys.argument 4 + 1)) lb good in
    let (limit, whole) =
      whole_blocks_lem (limited (sys.argument 3)) lb (power_of_2-IsPower lb block) in
    record {
      block_power = power_of_2-IsPower lb block;
      dma_power = power_of_2-IsPower (u64 (sys.argument 4 + 1)) dma;
      dma_fits = fits;
      boundary = at_least_one boundary (IsPower-pos (power_of_2-IsPower _ virt));
      segments_limited = ground arith;
      bytes_limited = omega (arith, limit, limited-le (sys.argument 3));
      bytes_whole = whole;
    }
  where
    at_least_one : {v lb : ℕ} → (v ≤ 1) ⊎ (lb ≤ v) → 0 < v → (v ≡ 1) ⊎ (lb ≤ v)
    at_least_one (inl h) p = inl (omega arith)
    at_least_one (inr h) p = inr h

-- Arguments that `init_args` accepts are sound: the block size and the alignment are powers of two,
-- the alignment at most the block size, the boundary 1 or at least the block size, and the largest
-- transfer at most 16 MiB, of whole blocks, in at most 4096 segments.
pub init_args-IsSound : (sys : System) (g : Globals) → init_args sys ≡ ok g → IsSound g
init_args-IsSound sys g h =
    let (good, same) = accepts sys g h in subst IsSound same (given-IsSound sys good)
