-- ===== src/NvmePassthroughMeta/Sizes.antt =====
-- The sizes of the transfers and of their metadata.
use ndt.Base.{
  ℕ, zero, suc, ◌+◌, ◌-◌, ◌*◌, ◌/◌, ◌%◌, ◌^◌, ◌≤◌, ◌<◌, ◌≡◌, ◌↔◌, arith, List, [], ◌∷◌, All,
}
use ndt.Base.{ℤ, pos, refl, IsPower-pos, IsPower-divides}
use native.Mathlib.Nat.{pow-suc}
use ndt.NvmePassthroughMeta.Script.{IsPosix, script, after}
use ndt.NvmePassthroughMeta.Script.Whole.{last_read, main_succeeds_iff}
use ndt.NvmePassthroughMeta.{
  Call, map_pages, ioctl_io_cmd, ioctl_admin_cmd, identify_cmd, returned, main, Host, Address,
  nowhere, at_ns, at_buffer, in_writable, in_read_only, current_lbaf, blocks, meta_buffer_size,
  io_cmd,
}

-- Where metadata of a size ends up: within the bytes that are mapped where its address points, or
-- nowhere.
abbrev pub FitsPages : ℕ → Address → ℕ → Type 0
FitsPages mapped nowhere size = size ≡ 0
FitsPages mapped at_ns size = size ≡ 0
FitsPages mapped at_buffer size = size ≡ 0
FitsPages mapped (in_writable offset) size = offset + size ≤ mapped
FitsPages mapped (in_read_only offset) size = offset + size ≤ mapped

-- Pages are mapped as large as told, and the metadata of a command that is sent ends up within them.
abbrev pub FitsCall : ℕ → Call → Type 0
FitsCall mapped (ioctl_io_cmd cmd) = FitsPages mapped cmd.metadata cmd.metadata_len
FitsCall mapped (ioctl_admin_cmd cmd) = FitsPages mapped cmd.metadata cmd.metadata_len
FitsCall mapped (map_pages size writable) = size ≡ mapped
FitsCall mapped _ = Unit

module _ (host : Host) where
  scripted_fits_iff :
      All (FitsCall 8192) (last_read host ∷ after host (script host) [])
      ↔ (meta_buffer_size host ≤ 4112)
  unfolding io_cmd identify_cmd
  scripted_fits_iff = (
    λ (_, (_, (_, (third, _)))). omega (arith, third),
    λ few.
        let low : 0 + meta_buffer_size host ≤ 8192 = omega (arith, few) in
        let high : 4080 + meta_buffer_size host ≤ 8192 = omega (arith, few) in
        (low, (low, (refl, (high, (high, (low, (low, (refl, (refl, (tt, (tt, tt))))))))))),
  )

  -- In a run that succeeds, where error numbers are positive, each mapping has 8192 bytes and the
  -- metadata of all commands that were sent stays within them exactly if a command has at most 4112
  -- bytes of it.
  pub metadata_fits_iff :
      IsPosix host
      → (argc : ℕ) (trace : List Call) → main host argc ≡ returned (pos 0) trace
      → All (FitsCall 8192) trace ↔ (meta_buffer_size host ≤ 4112)
  metadata_fits_iff posix argc trace h =
      let (enough, scripted, same) = (main_succeeds_iff host posix argc trace).0 h in
      rw same scripted_fits_iff

  whole_blocks : (current_lbaf host).ds ≤ 15 → blocks host * 2 ^ (current_lbaf host).ds ≡ 32768
  unfolding blocks
  whole_blocks small =
      let ds = (current_lbaf host).ds in
      let size_pos : 0 < 2 ^ ds = IsPower-pos (ds, refl) in
      let at_most : 2 ^ ds ≤ 2 ^ 15 = power-le ds 15 small in
      let (m, e) = IsPower-divides {a = 2 ^ ds} {b = 2 ^ 15} (ds, refl) (15, refl) at_most in
      quotient m (2 ^ ds) size_pos e
    where
      quotient : (m t : ℕ) → 0 < t → 2 ^ 15 ≡ m * t → 32768 / t * t ≡ 32768
      quotient m t p e = grind (arith, e, p)

      power-le : (i j : ℕ) → i ≤ j → 2 ^ i ≤ 2 ^ j
      power-le zero j h = omega (arith, IsPower-pos {a = 2 ^ j} (j, refl))
      power-le (suc i) zero h = absurd (omega arith)
      power-le (suc i) (suc j) h =
          omega (arith, pow-suc 2 i, pow-suc 2 j, power-le i j (omega arith))

  -- With blocks of at most 32768 bytes, as many blocks as a command asks for, whose number stands in
  -- `cdw12` less one, have as many bytes as its data; there is the metadata of that many
  -- blocks, whose size is 16 bits, and its size fits an `int`.
  pub io_cmd_sizes :
      (nsid : ℤ) (opcode : ℕ) (meta : Address)
      → (current_lbaf host).ds ≤ 15
      → (current_lbaf host).ms < 2 ^ 16
      → let cmd = io_cmd host nsid opcode meta in
        ((cmd.cdw12 + 1) * 2 ^ (current_lbaf host).ds ≡ cmd.data_len)
        × (cmd.metadata_len ≡ (cmd.cdw12 + 1) * (current_lbaf host).ms)
        × (cmd.metadata_len < 2 ^ 31)
  unfolding io_cmd meta_buffer_size
  io_cmd_sizes nsid opcode meta small short =
      let whole = whole_blocks small in
      let (some_block, few) = counted (blocks host) (2 ^ (current_lbaf host).ds) whole in
      let last : (blocks host + 2 ^ 32 - 1) % 2 ^ 32 + 1 ≡ blocks host =
        omega (arith, some_block, few) in
      (rw last whole, rw last refl, product (blocks host) (current_lbaf host).ms few short)
    where
      counted : (b t : ℕ) → b * t ≡ 32768 → (0 < b) × (b ≤ 32768)
      counted zero t e = absurd (omega (arith, e))
      counted (suc b) zero e = absurd (omega (arith, e))
      counted (suc b) (suc t) e = (omega arith, grind (arith, e))

      product : (b m : ℕ) → b ≤ 32768 → m < 2 ^ 16 → b * m < 2 ^ 31
      product b m h l = grind (arith, h, l)
