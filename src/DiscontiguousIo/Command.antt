-- ===== src/DiscontiguousIo/Command.antt =====
-- `sg_read` and `sg_write`: the READ(6) and WRITE(6) commands, and the driver that takes them.
pub mod Encoding
use ndt.Base.{
  ℕ, ◌+◌, ◌-◌, ◌*◌, ◌/◌, ◌%◌, ◌^◌, bit_or, ltb, ◌==◌, not, ◌&&◌, ◌||◌, Bool, true, false,
  if◌then◌else◌,
}
use ndt.Base.{ℤ, pos, negsuc, is_neg, List, [], ◌∷◌, length, Option, none, some}
use ndt.DiscontiguousIo.Iovec.{SgIovec, u64, data_len}

abbrev pub max_read_write_6_lba : ℕ
max_read_write_6_lba = 0x1fffff

abbrev pub max_read_write_6_length : ℕ
max_read_write_6_length = 0xff

-- SG_DXFER_FROM_DEV and SG_DXFER_TO_DEV.
pub data Direction : Type 0 where
  from_dev to_dev : Direction

-- What is filled in of `sg_io_hdr_t`; `iovec_count` has 16 bits, and `dxfer_len` 32.
pub record SgIoHdr : Type 0 where
  pub cmd : List ℕ
  pub direction : Direction
  pub iovec_count : ℕ
  pub dxfer_len : ℕ
  pub vectors : List SgIovec

-- What the driver writes back: the parts of the status, and how much was not transferred.
pub record SgAnswer : Type 0 where
  pub ret : ℤ
  pub status : ℕ
  pub msg_status : ℕ
  pub host_status : ℕ
  pub driver_status : ℕ
  pub resid : ℤ

-- The device's file: BLKSSZGET, SG_GET_VERSION_NUM and SG_IO, which reads or writes the memory.
pub record SgDevice (D : Type 0) : Type 0 where
  pub block_size : ℤ × ℕ
  pub version : ℤ × ℤ
  pub sg_io : D → (ℕ → ℕ) → SgIoHdr → SgAnswer × (ℕ → ℕ) × D

-- A READ(6) or WRITE(6), in `uint8_t`s.
unfoldable pub rw6 : ℕ → ℕ → ℕ → List ℕ
rw6 opcode lba blocks =
    opcode
    ∷ (lba / 2 ^ 16 % 2 ^ 8)
    ∷ (lba / 2 ^ 8 % 2 ^ 8)
    ∷ (lba % 2 ^ 8)
    ∷ (blocks % 2 ^ 8)
    ∷ 0
    ∷ []

-- The parts of the status in one 32-bit word.
unfoldable pub result_of : SgAnswer → ℕ
result_of h = bit_or h.status (
    bit_or (h.msg_status * 2 ^ 8)
      (bit_or (h.host_status * 2 ^ 16 % 2 ^ 32) (h.driver_status * 2 ^ 24 % 2 ^ 32)))

-- `v.data_len() - h.resid` as a `ssize_t`.
abbrev pub signed64 : ℕ → ℤ
signed64 n = if ltb n (2 ^ 63) then pos n else negsuc (2 ^ 64 - 1 - n)

abbrev pub less_resid : ℕ → ℤ → ℕ
less_resid len (pos r) = (len + 2 ^ 64 - r) % 2 ^ 64
less_resid len (negsuc r) = (len + r + 1) % 2 ^ 64

abbrev pub too_old : ℤ → Bool
too_old (pos n) = ltb n 30000
too_old (negsuc n) = true

-- The tests before the command is sent.
unfoldable pub sg_acceptable : ℕ → ℕ → List SgIovec → Bool
sg_acceptable block_size lba v =
    not (ltb max_read_write_6_lba lba)
    && not (data_len v == 0)
    && (data_len v % block_size == 0)
    && not (ltb max_read_write_6_length (data_len v / block_size))

module _ {D : Type 0} (dev : SgDevice D) where
  unfoldable pub header : ℕ → Direction → ℕ → List SgIovec → SgIoHdr
  unfolding rw6
  header opcode direction lba v = record {
    cmd = rw6 opcode lba (data_len v / dev.block_size.1);
    direction = direction;
    iovec_count = length v % 2 ^ 16;
    dxfer_len = data_len v % 2 ^ 32;
    vectors = v;
  }

  -- What both functions do; `negsuc 0` is -1.
  unfoldable pub sg_transfer : ℕ → Direction → ℕ → List SgIovec → (ℕ → ℕ) → D → ℤ × (ℕ → ℕ) × D
  unfolding sg_acceptable header result_of
  sg_transfer opcode direction lba v m d =
      let (version_ret, sg_version) = dev.version in
      let (h, m', d') = dev.sg_io d m (header opcode direction lba v) in
      if not (sg_acceptable dev.block_size.1 lba v) || is_neg version_ret || too_old sg_version
      then (negsuc 0, m, d)
      else (if is_neg h.ret || not (result_of h == 0)
          then (negsuc 0, m', d')
          else (signed64 (less_resid (data_len v) h.resid), m', d'))

  unfoldable pub sg_read : ℕ → List SgIovec → (ℕ → ℕ) → D → ℤ × (ℕ → ℕ) × D
  unfolding sg_transfer
  sg_read = sg_transfer 0x08 from_dev

  unfoldable pub sg_write : ℕ → List SgIovec → (ℕ → ℕ) → D → ℤ × (ℕ → ℕ) × D
  unfolding sg_transfer
  sg_write = sg_transfer 0x0a to_dev
