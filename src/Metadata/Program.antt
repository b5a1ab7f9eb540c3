-- ===== src/Metadata/Program.antt =====
-- `init_data`, `check_data` and `main` of metadata.c. The device and io_uring are a parameter: what a
-- write and a read answer, and what they leave in the buffers.
pub mod Success
use ndt.Base.{ℕ, zero, suc, ◌+◌, ◌*◌, ◌/◌, ◌%◌, ◌^◌, Bool, true, false, not, ◌&&◌, ◌||◌, ◌==◌, ltb}
use ndt.Base.{if◌then◌else◌, fill, ℤ, pos, negsuc, is_neg, eqb, int_of_u32, Option, none, some}
use ndt.Metadata.Pattern.{
  Capabilities, LogicalBlockMetadataCap, init_capabilities, check_bytes, init_metadata,
  check_metadata,
}

abbrev pub data_size : ℕ
data_size = 8 * 1024 * 1024

-- `(unsigned char)(0xaa + offset + i)`.
abbrev pub data_byte : ℕ → ℕ → ℕ
data_byte offset i = (0xaa + offset + i) % 256

unfoldable pub init_data : ℕ → (ℕ → ℕ) → ℕ → ℕ
init_data offset d = fill data_size 0 0 (data_byte offset) d

unfoldable pub check_data : ℕ → (ℕ → ℕ) → ℤ
check_data offset d = if check_bytes data_size 0 0 (data_byte offset) d then pos 0 else negsuc 0

-- The variables of `main` that give the sizes.
unfoldable pub intervals : Capabilities → ℕ
intervals c = data_size / c.lba_size

unfoldable pub metabuffer_tx_size : Capabilities → ℕ
unfolding intervals
metabuffer_tx_size c = intervals c * c.metadata_size

-- An `int`, as the machine wraps it where the product exceeds it; for the sizes that
-- `init_capabilities` sets, the size of a transfer, below 2 ^ 31, does not.
unfoldable pub metabuffer_size : Capabilities → ℤ
unfolding metabuffer_tx_size
metabuffer_size c = int_of_u32 (metabuffer_tx_size c * 2 % 2 ^ 32)

-- `pi_buf`, from the start of the metadata buffer.
unfoldable pub pi_buf : ℕ → ℕ
pi_buf offset = offset * 4

-- What io_uring answers to one request: whether there is an entry, what the submission and the wait
-- return, and the result of the completion.
pub record Answer : Type 0 where
  pub has_sqe : Bool
  pub submitted : ℤ
  pub waited : ℤ
  pub res : ℤ

-- `ret < 1`.
abbrev pub below_one : ℤ → Bool
below_one (pos n) = n == 0
below_one (negsuc n) = true

unfoldable pub request_ok : Answer → Bool
request_ok a =
    a.has_sqe && not (below_one a.submitted) && not (is_neg a.waited) && not (is_neg a.res)

-- The device: a write and a read at a position, of the data and of the metadata from a place on.
pub record Device (D : Type 0) : Type 0 where
  pub write_at : D → ℕ → ℕ → (ℕ → ℕ) → (ℕ → ℕ) → Answer × D
  pub read_at : D → ℕ → ℕ → (ℕ → ℕ) → (ℕ → ℕ) → Answer × (ℕ → ℕ) × (ℕ → ℕ) × D

pub record Buffers (D : Type 0) : Type 0 where
  pub device : D
  pub data_buf : ℕ → ℕ
  pub pi_mem : ℕ → ℕ

module _ {D : Type 0} (dev : Device D) (c : Capabilities) where
  -- The write of a turn: what is sent, and what the device answers.
  unfoldable pub written : ℕ → Buffers D → Answer × D
  written offset b =
      dev.write_at b.device (offset * c.lba_size * 8) (pi_buf offset) (init_data offset b.data_buf)
        (init_metadata c (pi_buf offset) (intervals c) offset b.pi_mem)

  -- The read of a turn, into buffers that were cleared.
  unfoldable pub read_back : ℕ → Buffers D → Answer × (ℕ → ℕ) × (ℕ → ℕ) × D
  read_back offset b =
      dev.read_at (written offset b).1 (offset * c.lba_size * 8) (pi_buf offset)
        (fill data_size 0 0 (λ j. 0) (init_data offset b.data_buf))
        (fill (metabuffer_tx_size c) 0 (pi_buf offset) (λ j. 0)
          (init_metadata c (pi_buf offset) (intervals c) offset b.pi_mem))

  -- One turn of the loop over `offset`; `none` is the way out with `ret = 1`.
  unfoldable pub round : ℕ → Buffers D → Option (Buffers D)
  round offset b =
      let got = read_back offset b in
      if request_ok (written offset b).0
        && request_ok got.0
        && eqb (check_data offset got.1) (pos 0)
        && eqb (check_metadata c (pi_buf offset) (intervals c) offset got.2) (pos 0)
      then some (record { device = got.3; data_buf = got.1; pi_mem = got.2 })
      else none

  -- The turns from `offset` on.
  unfoldable pub rounds : ℕ → ℕ → Buffers D → Option (Buffers D)
  rounds zero offset b = some b
  rounds (suc left) offset b = elim (round offset b) [
    | none ↦ none
    | some b' ↦ rounds left (offset + 1) b'
  ]

-- What the system answers `main`, besides the requests of the loop; the last four are those of the
-- two final writes.
pub record System : Type 0 where
  pub argc : ℕ
  pub fd : ℤ
  pub cap_ret : ℤ
  pub md_cap : LogicalBlockMetadataCap
  pub data_memalign : ℕ
  pub pi_memalign : ℕ
  pub queue_init : ℤ
  pub first_sqe : Bool
  pub second_sqe : Bool
  pub submitted : ℤ
  pub reaped : ℤ

-- The value that `main` returns.
unfoldable pub main : {D : Type 0} → Device D → System → Capabilities → Buffers D → ℤ
main dev sys old b =
    let (ret, c) = init_capabilities sys.cap_ret sys.md_cap old in
    if ltb sys.argc 2 || is_neg sys.fd || is_neg ret || c.lba_size == 0 || c.metadata_size == 0
    then pos 1
    else (if not (sys.data_memalign == 0) || not (sys.pi_memalign == 0)
        then pos 1
        else (if is_neg sys.queue_init then sys.queue_init else (elim (rounds dev c 512 0 b) [
          | none ↦ pos 1
          | some b' ↦
              if not (sys.first_sqe && sys.second_sqe)
              then pos 1
              else (if below_one sys.submitted then sys.submitted else sys.reaped)
        ])))
