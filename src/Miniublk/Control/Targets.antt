-- ===== src/Miniublk/Control/Targets.antt =====
-- `ublk_find_tgt`, and the setup and the recovery of the two targets.
pub mod Recovery
use ndt.Base.{
  ℕ, suc, ◌+◌, ◌-◌, ◌*◌, ◌/◌, ◌%◌, ◌^◌, ◌==◌, ◌⊎◌, inl, inr, ℤ, pos, negsuc, neg, is_neg, eqb,
}
use ndt.Base.{Bool, true, false, not, ◌&&◌, ◌||◌, if◌then◌else◌, Option, none, some, List, [], ◌∷◌}
use Prim.Native.String.{String}
use text.Mathlib.Text.{◌==◌ as str_eq}
use ndt.Miniublk.Abi.{Abi}
use ndt.Miniublk.Types.{Target, null_tgt, loop_tgt}
use ndt.Miniublk.Control.Monad.{
  Call, open_backing, fstat_backing, ioctl_size, ioctl_ssz, ioctl_pbsz, set_direct, close_backing,
  fsync_backing, M, ◌>>=◌, ◌>>◌, pure, call,
}
use ndt.Miniublk.Control.Commands.{UblkDev, UblkParams, Host}

-- `tgt_ops_list`.
abbrev pub tgt_ops_list : List (String × Target)
tgt_ops_list = ("null", null_tgt) ∷ ("loop", loop_tgt) ∷ []

-- NULL, an entry, or a read past the end of the table.
pub data Found : Type 0 where
  null_pointer : Found
  entry : Target → Found
  past_the_end : Found

-- The condition of the loop is the size of the table, which is not zero: it ends at a match only.
unfoldable pub scan_tgt : String → List (String × Target) → Found
scan_tgt name [] = past_the_end
scan_tgt name ((n, t) ∷ rest) = if str_eq n name then entry t else scan_tgt name rest

unfoldable pub ublk_find_tgt : Option String → Found
unfolding scan_tgt
ublk_find_tgt none = null_pointer
ublk_find_tgt (some name) = scan_tgt name tgt_ops_list

-- The kind of file that `fstat` tells.
pub data Mode : Type 0 where
  block_device regular_file other_file : Mode

-- What is known of the backing file: the sizes that the ioctls and `fstat` report, and the number of
-- leading zero bits of a 32-bit word, `__builtin_clz`.
pub record Backing : Type 0 where
  pub mode : Mode
  pub size64 : ℕ
  pub sector_size : ℕ
  pub physical_sector_size : ℕ
  pub st_size : ℕ
  pub st_blksize : ℕ
  pub clz : ℕ → ℕ

unfoldable pub ilog2 : (ℕ → ℕ) → ℕ → ℕ
ilog2 clz x = (2 ^ 32 + 31 - clz x) % 2 ^ 32

-- Size, block size and physical block size of the backing file.
pub record Geometry : Type 0 where
  pub bytes : ℕ
  pub bs : ℕ
  pub pbs : ℕ

module _ (abi : Abi) (host : Host) where
  unfoldable pub ublk_null_tgt_init : UblkDev → ℤ × UblkDev
  ublk_null_tgt_init dev = (
    pos 0,
    record dev {
      dev_size = 250 * 2 ^ 30;
      params = record {
        logical_bs_shift = 9;
        physical_bs_shift = 12;
        io_opt_shift = 12;
        io_min_shift = 9;
        max_sectors = dev.dev_info.max_io_buf_bytes / 2 ^ 9;
        dev_sectors = 250 * 2 ^ 30 / 2 ^ 9;
      };
    },
  )

  unfoldable pub ublk_null_tgt_recover : UblkDev → ℤ × UblkDev
  ublk_null_tgt_recover dev =
      (pos 0, record dev { dev_size = dev.params.dev_sectors * 2 ^ 9 % 2 ^ 64 })

  -- The three ioctls on a block device, or the error that is returned at once.
  unfoldable pub query_block : Backing → M (Geometry ⊎ ℤ)
  query_block b = do
    size ← call host.answers ioctl_size
    elim (eqb size (pos 0)) [
      | false ↦ pure (inr (neg abi.ebadf))
      | true ↦ do
        ssz ← call host.answers ioctl_ssz
        elim (eqb ssz (pos 0)) [
          | false ↦ pure (inr (negsuc 0))
          | true ↦ do
            pbsz ← call host.answers ioctl_pbsz
            elim (eqb pbsz (pos 0)) [
              | false ↦ pure (inr (negsuc 0))
              | true ↦ pure (
                  inl
                    (record { bytes = b.size64; bs = b.sector_size; pbs = b.physical_sector_size }))
            ]
        ]
    ]

  -- For a file that is neither, the block sizes stay as `bs` and `pbs` were before.
  unfoldable pub query_mode : Mode → Backing → M (Geometry ⊎ ℤ)
  query_mode block_device b = query_block b
  query_mode regular_file b =
      pure (inl (record { bytes = b.st_size; bs = b.st_blksize; pbs = b.st_blksize }))
  query_mode other_file b = pure (inl (record { bytes = 0; bs = 2 ^ 9; pbs = 2 ^ 12 }))

  -- Opening the backing file and asking for its geometry, as both setup and recovery do it.
  unfoldable pub open_and_query : Backing → Option String → M (Geometry ⊎ ℤ)
  open_and_query b none = pure (inr (neg abi.einval))
  open_and_query b (some file) = do
    fd ← call host.answers (open_backing file)
    elim (is_neg fd) [
      | true ↦ pure (inr (neg abi.ebadf))
      | false ↦ do
        st ← call host.answers fstat_backing
        elim (is_neg st) [
          | true ↦ do call host.answers close_backing; pure (inr (neg abi.ebadf))
          | false ↦ query_mode b.mode b
        ]
    ]

  -- The parameters that setup records. The measured block sizes count if `fcntl` accepts O_DIRECT, and
  -- if the file has any.
  abbrev pub measured : Backing → Bool → Bool
  measured b direct = elim b.mode [ other_file ↦ false | _ ↦ direct ]

  unfoldable pub loop_params : UblkDev → Backing → Geometry → Bool → UblkParams
  loop_params dev b g direct = record {
    logical_bs_shift = if measured b direct then ilog2 b.clz g.bs else 9;
    physical_bs_shift = if measured b direct then ilog2 b.clz g.pbs else 12;
    io_opt_shift = 12;
    io_min_shift = 9;
    max_sectors = dev.dev_info.max_io_buf_bytes / 2 ^ 9;
    dev_sectors = g.bytes / 2 ^ 9;
  }

  unfoldable pub ublk_loop_tgt_init : UblkDev → Backing → Option String → M (ℤ × UblkDev)
  unfolding loop_params
  ublk_loop_tgt_init dev b file = do
    found ← open_and_query b file
    elim found [
      | inr e ↦ pure (e, dev)
      | inl g ↦ do
        r ← call host.answers set_direct
        pure (
          pos 0,
          record dev {
            dev_size = g.bytes;
            params = loop_params dev b g (eqb r (pos 0));
            nr_fds = dev.nr_fds + 1;
          },
        )
    ]

  -- What recovery accepts: under O_DIRECT the recorded block sizes, and always the recorded size.
  unfoldable pub recover_accepts : UblkParams → Backing → Geometry → Bool → Bool
  recover_accepts p b g direct =
      (not direct
        || ((p.logical_bs_shift == ilog2 b.clz g.bs) && (p.physical_bs_shift == ilog2 b.clz g.pbs)))
      && (p.dev_sectors * 2 ^ 9 % 2 ^ 64 == g.bytes)

  unfoldable pub ublk_loop_tgt_recover : UblkDev → Backing → Option String → M (ℤ × UblkDev)
  ublk_loop_tgt_recover dev b file = do
    found ← open_and_query b file
    elim found [
      | inr e ↦ pure (e, dev)
      | inl g ↦ do
        r ← call host.answers set_direct
        if recover_accepts dev.params b g (eqb r (pos 0))
            then pure (pos 0, record dev { dev_size = g.bytes; nr_fds = dev.nr_fds + 1 })
            else pure (negsuc 0, dev)
    ]

  unfoldable pub ublk_loop_tgt_deinit : M (Unit {0})
  ublk_loop_tgt_deinit = do
    call host.answers fsync_backing
    call host.answers close_backing
    pure tt
