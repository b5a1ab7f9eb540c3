-- ===== src/DioOffsets/Globals/Room.antt =====
-- The size of the buffers.
use ndt.Base.{ℕ, ◌+◌, ◌-◌, ◌*◌, ◌/◌, ◌%◌, ◌^◌, ◌≤◌, ◌<◌, ◌≡◌, inl, inr, arith}
use ndt.Base.{Bool-cases, if◌then◌else◌, ltb, ◌==◌, bit_and}
use ndt.Base.{IsPower, IsMultiple, IsPower-pos, bit_and-power, bit_and-complement}
use ndt.DioOffsets.Words.{u64}
use ndt.DioOffsets.Globals.{Globals, System, ok, unrounded, rounded, wanted_size, init_buffers}
use ndt.DioOffsets.Globals.Sound.{IsSound}

-- Rounding up with a mask.
rounded_up :
    (size lb : ℕ)
    → IsPower lb
    → lb ≤ 2 ^ 32
    → size ≤ 2 ^ 62
    → let up = bit_and (u64 (size + (lb - 1))) (2 ^ 64 - 1 - (lb - 1)) in
      (size ≤ up) × IsMultiple lb up
rounded_up size lb p small fits =
    let x : ℕ = size + (lb - 1) in
    let wraps : u64 x ≡ x = omega arith in
    let cut : bit_and x (2 ^ 64 - 1 - (lb - 1)) ≡ x - x % lb = omega (
      arith,
      bit_and-complement 64 x (lb - 1) (omega arith) (omega arith),
      bit_and-power p x,
      IsPower-pos p,
    ) in
    rw wraps (rw cut (grind (arith, IsPower-pos p), (x / lb, grind (arith, IsPower-pos p))))

rounded_lem :
    (size lb : ℕ)
    → IsPower lb
    → lb ≤ 2 ^ 32
    → size ≤ 2 ^ 62
    → (size ≤ rounded size lb) × IsMultiple lb (rounded size lb)
unfolding rounded
rounded_lem size lb p small fits = elim (Bool-cases (bit_and size (lb - 1) == 0)) [
  | inl whole ↦
      rw whole (omega arith, (size / lb, grind (arith, bit_and-power p size, IsPower-pos p)))
  | inr part ↦ rw part (rounded_up size lb p small fits)
]

mul_mono : (a b s : ℕ) → a ≤ b → a * s ≤ b * s
mul_mono a b s h = grind arith

two_blocks : (a m s : ℕ) → a * s ≤ m * s / 2 → 0 < s → 2 * a ≤ m
two_blocks a m s h p = elim (Bool-cases (ltb m (2 * a))) [
  | inl less ↦ absurd (omega (arith, mul_mono (m + 1) (2 * a) s (ground arith)))
  | inr enough ↦ ground arith
]

module _ (g : Globals) (sound : IsSound g) (blocks : g.logical_block_size ≤ 2 ^ 32) where
  product_small : g.max_bytes * g.max_segments ≤ 2 ^ 36
  product_small = grind (arith, sound.segments_limited, sound.bytes_limited)

  unrounded_lem :
      (g.logical_block_size * 4096 ≤ unrounded g)
      × (g.max_bytes * g.max_segments / 2 ≤ unrounded g)
      × (unrounded g ≤ 2 ^ 62)
  unfolding unrounded
  unrounded_lem = ground (arith, product_small)

  -- The wanted size is a whole number of blocks, at least 4096 of them, and at least half of the
  -- largest transfer times the number of segments.
  pub wanted_size_lem :
      (IsMultiple g.logical_block_size (wanted_size g))
      × (g.logical_block_size * 4096 ≤ wanted_size g)
      × (g.max_bytes * g.max_segments / 2 ≤ wanted_size g)
  unfolding wanted_size
  wanted_size_lem =
      let (room, half, small) = unrounded_lem in
      let (up, whole) =
        rounded_lem (unrounded g) g.logical_block_size sound.block_power blocks small in
      (whole, omega (arith, room, up), omega (arith, half, up))

  -- What a successful `init_buffers` tells of sound globals with blocks of at most 2 ^ 32 bytes and
  -- at least one segment: a transfer holds two blocks, and the buffers have the wanted size, or that
  -- of the device if it is smaller; nothing else is changed.
  pub init_buffers_room :
      (sys : System) (g' : Globals)
      → 0 < g.max_segments
      → init_buffers sys g ≡ ok g'
      → (2 * g.logical_block_size ≤ g.max_bytes)
        × (g' ≡ record g {
          buf_size = if ltb sys.dev_bytes (wanted_size g) then sys.dev_bytes else wanted_size g;
        })
  unfolding init_buffers
  init_buffers_room sys g' some_segment h = (
    two_blocks g.logical_block_size g.max_bytes g.max_segments
        (ground (arith, product_small, lb_product_small)) some_segment,
    ground arith,
  )
    where
      lb_product_small : g.logical_block_size * g.max_segments ≤ 2 ^ 44
      lb_product_small = grind (arith, sound.segments_limited)
