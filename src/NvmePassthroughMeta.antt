-- ===== src/NvmePassthroughMeta.antt =====
-- nvme-passthrough-meta.c: writes and reads through the NVMe passthrough commands, with the metadata
-- in pages that the program maps.
pub mod Sizes
pub mod Script
use ndt.Base.{ℕ, ◌+◌, ◌-◌, ◌*◌, ◌/◌, ◌%◌, ◌^◌, ltb, ◌==◌, Bool, true, false, if◌then◌else◌}
use ndt.Base.{ℤ, pos, neg, is_neg, eqb, u32_of_int, List, [], ◌∷◌}

-- `mptr` and an offset, of the writable pages or of the read-only ones; or another buffer.
pub data Address : Type 0 where
  nowhere at_ns at_buffer : Address
  in_writable in_read_only : ℕ → Address

-- `struct nvme_passthru_cmd`; the fields that the program leaves 0 are left out.
pub record NvmePassthruCmd : Type 0 where
  pub opcode : ℕ
  pub nsid : ℤ
  pub addr : Address
  pub metadata : Address
  pub data_len : ℕ
  pub metadata_len : ℕ
  pub cdw12 : ℕ

pub record NvmeLbaf : Type 0 where
  pub ms : ℕ
  pub ds : ℕ

-- What the system is asked for; `map_pages` is told how many bytes, and whether they are writable.
pub data Call : Type 0 where
  open_device ioctl_id : Call
  ioctl_admin_cmd ioctl_io_cmd : NvmePassthruCmd → Call
  map_pages : ℕ → Bool → Call

-- What the system answers a call after earlier ones, the newest first, where a negative answer of
-- `map_pages` stands for MAP_FAILED; `errno`, and two numbers of <errno.h>; and what the device
-- describes of its namespace.
pub record Host : Type 0 where
  pub answer : List Call → Call → ℤ
  pub errno : List Call → ℕ
  pub einval : ℕ
  pub efault : ℕ
  pub flbas : ℕ
  pub lbaf : ℕ → NvmeLbaf

-- The program goes on, has returned, or has shifted past the width of an `int`.
pub data Ended {ℓ} (A : Type ℓ) : Type ℓ where
  running : A → List Call → Ended A
  returned : ℤ → List Call → Ended A
  undefined_shift : Ended A

abbrev pub Run {ℓ} : Type ℓ → Type ℓ
Run A = List Call → Ended A

abbrev pub go_on {ℓ κ} : {A : Type ℓ} {B : Type κ} → Ended A → (A → Run B) → Ended B
go_on (running a calls) f = f a calls
go_on (returned code calls) f = returned code calls
go_on undefined_shift f = undefined_shift

infixl 5 ◌>>=◌
abbrev pub ◌>>=◌ {ℓ κ} : {A : Type ℓ} {B : Type κ} → Run A → (A → Run B) → Run B
◌>>=◌ m f calls = go_on (m calls) f

module _ (host : Host) where
  -- A call after which the program returns, if its answer is negative: `errno`, or the answer.
  unfoldable pub require : Bool → Call → Run ℤ
  require by_errno c calls =
      let ret = host.answer calls c in
      if is_neg ret
      then returned (if by_errno then pos (host.errno (c ∷ calls)) else ret) (c ∷ calls)
      else running ret (c ∷ calls)

  unfoldable pub current_lbaf : NvmeLbaf
  current_lbaf = host.lbaf (host.flbas % 16)

  -- `blocks` and `meta_buffer_size`.
  unfoldable pub blocks : ℕ
  unfolding current_lbaf
  blocks = 32768 / 2 ^ current_lbaf.ds

  unfoldable pub meta_buffer_size : ℕ
  unfolding current_lbaf blocks
  meta_buffer_size = blocks * current_lbaf.ms

  unfoldable pub identify_cmd : ℤ → NvmePassthruCmd
  identify_cmd nsid = record {
    opcode = 6;
    nsid = nsid;
    addr = at_ns;
    metadata = nowhere;
    data_len = 4096;
    metadata_len = 0;
    cdw12 = 0;
  }

  unfoldable pub io_cmd : ℤ → ℕ → Address → NvmePassthruCmd
  unfolding blocks meta_buffer_size
  io_cmd nsid opcode meta = record {
    opcode = opcode;
    nsid = nsid;
    addr = at_buffer;
    metadata = meta;
    data_len = 32768;
    metadata_len = meta_buffer_size;
    cdw12 = (blocks + 2 ^ 32 - 1) % 2 ^ 32;
  }

  -- The format of the device, which has to have metadata.
  unfoldable pub check_format : Run ℤ
  unfolding current_lbaf
  check_format calls =
      if ltb current_lbaf.ds 31
      then (if current_lbaf.ms == 0
          then returned (neg host.einval) calls
          else running (pos 0) calls)
      else undefined_shift

  -- The read that has to fail.
  unfoldable pub expect_failure : Call → Run ℤ
  expect_failure c calls =
      if eqb (host.answer calls c) (pos 0)
      then returned (pos host.efault) (c ∷ calls)
      else returned (pos 0) (c ∷ calls)

  unfoldable pub exchange : Bool → ℤ → Address → Run ℤ
  unfolding require io_cmd
  exchange by_errno nsid meta = do
    _ ← require by_errno (ioctl_io_cmd (io_cmd nsid 1 meta))
    require by_errno (ioctl_io_cmd (io_cmd nsid 2 meta))

  unfoldable pub passthrough : Run ℤ
  unfolding require identify_cmd io_cmd check_format expect_failure exchange
  passthrough = do
    _ ← require false open_device
    nsid ← require true ioctl_id
    _ ← require true (ioctl_admin_cmd (identify_cmd nsid))
    _ ← check_format
    _ ← require true (map_pages 8192 true)
    _ ← exchange false nsid (in_writable 0)
    _ ← exchange true nsid (in_writable (4096 - 16))
    _ ← require true (map_pages 8192 false)
    _ ← require false (ioctl_io_cmd (io_cmd nsid 1 (in_read_only 0)))
    expect_failure (ioctl_io_cmd (io_cmd nsid 2 (in_read_only 0)))

  unfoldable pub main : ℕ → Ended ℤ
  unfolding passthrough
  main argc = if ltb argc 2 then returned (pos host.einval) [] else passthrough []
