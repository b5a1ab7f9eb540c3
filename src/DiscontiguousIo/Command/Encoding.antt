-- ===== src/DiscontiguousIo/Command/Encoding.antt =====
-- What a command that is sent asks the device for.
use ndt.Base.{ℕ, ◌+◌, ◌*◌, ◌/◌, ◌%◌, ◌^◌, ◌≤◌, ◌<◌, ◌≡◌, arith, true, ◌==◌}
use ndt.Base.{List, ◌∷◌, if◌then◌else◌}
use ndt.DiscontiguousIo.Iovec.{SgIovec, data_len}
use ndt.DiscontiguousIo.Command.{
  Direction, SgDevice, rw6, sg_acceptable, header, max_read_write_6_lba, max_read_write_6_length,
}

-- A READ(6) or WRITE(6) as a device reads it: the address has 21 bits, and no blocks mean 256.
abbrev pub decode6 : List ℕ → ℕ × ℕ × ℕ
decode6 (op ∷ a ∷ b ∷ c ∷ n ∷ rest) =
    (op, a % 2 ^ 5 * 2 ^ 16 + b * 2 ^ 8 + c, if n == 0 then 256 else n)
decode6 _ = (0, 0, 0)

decode6-rw6 :
    (opcode lba blocks : ℕ)
    → lba ≤ max_read_write_6_lba
    → 0 < blocks
    → blocks ≤ max_read_write_6_length
    → decode6 (rw6 opcode lba blocks) ≡ (opcode, lba, blocks)
unfolding rw6
decode6-rw6 opcode lba blocks h p l = ground arith

module _ {D : Type 0} (dev : SgDevice D) where
  -- Vectors that are accepted for a device with blocks of some bytes, at most 4 MiB, give a command
  -- that names its operation, the address, and as many blocks as the vectors have bytes for; the length
  -- announced with it is that of the vectors.
  pub header-decodes :
      (opcode : ℕ) (direction : Direction) (lba : ℕ) (v : List SgIovec)
      → let block_size = dev.block_size.1 in
        0 < block_size
        → block_size ≤ 2 ^ 22
        → sg_acceptable block_size lba v ≡ true
        → (blocks : ℕ) × (decode6 (header dev opcode direction lba v).cmd ≡ (opcode, lba, blocks))
          × (blocks * block_size ≡ data_len v)
          × ((header dev opcode direction lba v).dxfer_len ≡ data_len v)
  unfolding header sg_acceptable
  header-decodes opcode direction lba v p l ok =
      let bs = dev.block_size.1 in
      let (whole, some_blocks, few) =
        counted (data_len v) bs p (ground (arith, ok)) (ground (arith, ok)) (ground (arith, ok)) in
      (
        data_len v / bs,
        decode6-rw6 opcode lba (data_len v / bs) (ground (arith, ok)) some_blocks few,
        whole,
        grind (arith, whole, few, l),
      )
    where
      counted :
          (n bs : ℕ)
          → 0 < bs
          → n % bs ≡ 0
          → 0 < n
          → n / bs ≤ 255
          → (n / bs * bs ≡ n) × (0 < n / bs) × (n / bs ≤ 255)
      counted n bs p e some_bytes few = (grind (arith, e, p), grind (arith, e, p, some_bytes), few)
