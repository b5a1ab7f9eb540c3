-- ===== src/Miniublk/Control/Commands.antt =====
-- `__ublk_ctrl_cmd`, the commands built on it, and the making and freeing of a device.
use ndt.Base.{ℕ, ℤ, pos, negsuc, neg, is_neg, eqb, Bool, true, false}
use ndt.Base.{Option, none, some}
use ndt.Miniublk.Abi.{Abi}
use ndt.Miniublk.Types.{Target}
use ndt.Miniublk.Control.Monad.{
  CtrlOp, add_dev, del_dev, start_dev, stop_dev, set_params, get_params, get_dev_info,
  start_user_recovery, end_user_recovery, CtrlBuf, dev_info_buf, params_buf, UblkCtrlCmdData,
  UblksrvCtrlCmd, Call, calloc_dev, open_ctrl, setup_ctrl_ring, close_ctrl, free_dev, ctrl_get_sqe,
  ctrl_wait_cqe, ctrl_cqe_res, ctrl_submit, Trace, M, ◌>>=◌, ◌>>◌, pure, exit, null_deref, call,
}

-- `struct ublksrv_ctrl_dev_info`; `user_recovery` is the flag UBLK_F_USER_RECOVERY, and `quiesced`
-- whether the state is UBLK_S_DEV_QUIESCED.
pub record DevInfo : Type 0 where
  pub dev_id : ℤ
  pub nr_hw_queues : ℕ
  pub queue_depth : ℕ
  pub max_io_buf_bytes : ℕ
  pub ublksrv_pid : ℤ
  pub user_recovery : Bool
  pub quiesced : Bool

-- The basic part of `struct ublk_params`.
pub record UblkParams : Type 0 where
  pub logical_bs_shift : ℕ
  pub physical_bs_shift : ℕ
  pub io_opt_shift : ℕ
  pub io_min_shift : ℕ
  pub max_sectors : ℕ
  pub dev_sectors : ℕ

-- `struct ublk_dev` without its queues.
pub record UblkDev : Type 0 where
  pub dev_info : DevInfo
  pub dev_size : ℕ
  pub params : UblkParams
  pub ops : Option Target
  pub nr_fds : ℕ

-- What the host answers, and what it writes into the two buffers that commands point to.
pub record Host : Type 0 where
  pub answers : Trace → Call → ℤ
  pub info_after : Trace → DevInfo → DevInfo
  pub params_after : Trace → UblkParams → UblkParams

abbrev pub ublk_io_max_bytes : ℕ
ublk_io_max_bytes = 65536

abbrev pub no_params : UblkParams
no_params = record {
  logical_bs_shift = 0;
  physical_bs_shift = 0;
  io_opt_shift = 0;
  io_min_shift = 0;
  max_sectors = 0;
  dev_sectors = 0;
}

-- What `calloc` gives, with the size that `ublk_ctrl_init` sets.
abbrev pub new_dev : UblkDev
new_dev = record {
  dev_info = record {
    dev_id = pos 0;
    nr_hw_queues = 0;
    queue_depth = 0;
    max_io_buf_bytes = ublk_io_max_bytes;
    ublksrv_pid = pos 0;
    user_recovery = false;
    quiesced = false;
  };
  dev_size = 0;
  params = no_params;
  ops = none;
  nr_fds = 1;
}

unfoldable pub ublk_ctrl_init_cmd : UblkDev → UblkCtrlCmdData → UblksrvCtrlCmd
ublk_ctrl_init_cmd dev cmd = record {
  cmd_op = cmd.cmd_op;
  dev_id = dev.dev_info.dev_id;
  queue_id = negsuc 0;
  payload = cmd.payload;
  buf = cmd.buf;
}

abbrev plain : CtrlOp → UblkCtrlCmdData
plain op = record { cmd_op = op; payload = none; buf = none }

abbrev with_pid : CtrlOp → ℤ → UblkCtrlCmdData
with_pid op pid = record { cmd_op = op; payload = some pid; buf = none }

abbrev with_buf : CtrlOp → CtrlBuf → UblkCtrlCmdData
with_buf op b = record { cmd_op = op; payload = none; buf = some b }

module _ (abi : Abi) (host : Host) where
  -- A submission entry is NULL where the host answers 0.
  unfoldable pub __ublk_ctrl_cmd : UblkDev → UblkCtrlCmdData → M ℤ
  unfolding ublk_ctrl_init_cmd
  __ublk_ctrl_cmd dev cmd = do
    sqe ← call host.answers ctrl_get_sqe
    elim (eqb sqe (pos 0)) [
      | true ↦ pure (neg abi.einval)
      | false ↦ do
        submitted ← call host.answers (ctrl_submit (ublk_ctrl_init_cmd dev cmd))
        elim (is_neg submitted) [
          | true ↦ pure submitted
          | false ↦ do
            waited ← call host.answers ctrl_wait_cqe
            elim (is_neg waited) [ true ↦ pure waited | false ↦ call host.answers ctrl_cqe_res ]
        ]
    ]

  unfoldable pub ublk_ctrl_stop_dev : UblkDev → M ℤ
  ublk_ctrl_stop_dev dev = __ublk_ctrl_cmd dev (plain stop_dev)

  unfoldable pub ublk_ctrl_del_dev : UblkDev → M ℤ
  ublk_ctrl_del_dev dev = __ublk_ctrl_cmd dev (plain del_dev)

  unfoldable pub ublk_ctrl_start_user_recover : UblkDev → M ℤ
  ublk_ctrl_start_user_recover dev = __ublk_ctrl_cmd dev (plain start_user_recovery)

  abbrev set_pid : UblkDev → ℤ → UblkDev
  set_pid dev pid = record dev { dev_info = record (dev.dev_info) { ublksrv_pid = pid } }

  unfoldable pub ublk_ctrl_start_dev : UblkDev → ℤ → M (ℤ × UblkDev)
  ublk_ctrl_start_dev dev pid = do
    ret ← __ublk_ctrl_cmd (set_pid dev pid) (with_pid start_dev pid)
    pure (ret, set_pid dev pid)

  unfoldable pub ublk_ctrl_end_user_recover : UblkDev → ℤ → M (ℤ × UblkDev)
  ublk_ctrl_end_user_recover dev pid = do
    ret ← __ublk_ctrl_cmd (set_pid dev pid) (with_pid end_user_recovery pid)
    pure (ret, set_pid dev pid)

  -- The driver may write the device's information.
  unfoldable pub read_info : UblkDev → ℤ → M (ℤ × UblkDev)
  read_info dev ret t = pure (ret, record dev { dev_info = host.info_after t dev.dev_info }) t

  unfoldable pub ublk_ctrl_add_dev : UblkDev → M (ℤ × UblkDev)
  ublk_ctrl_add_dev dev = do
    ret ← __ublk_ctrl_cmd dev (with_buf add_dev dev_info_buf)
    read_info dev ret

  unfoldable pub ublk_ctrl_get_info : UblkDev → M (ℤ × UblkDev)
  ublk_ctrl_get_info dev = do
    ret ← __ublk_ctrl_cmd dev (with_buf get_dev_info dev_info_buf)
    read_info dev ret

  unfoldable pub ublk_ctrl_set_params : UblkDev → M ℤ
  ublk_ctrl_set_params dev = __ublk_ctrl_cmd dev (with_buf set_params params_buf)

  unfoldable pub read_params : UblkDev → ℤ → M (ℤ × UblkDev)
  read_params dev ret t = pure (ret, record dev { params = host.params_after t dev.params }) t

  unfoldable pub ublk_ctrl_get_params : UblkDev → M (ℤ × UblkDev)
  ublk_ctrl_get_params dev = do
    ret ← __ublk_ctrl_cmd dev (with_buf get_params params_buf)
    read_params dev ret

  -- `none` is the NULL pointer. A failed `calloc` answers 0, and is not looked at.
  unfoldable pub ublk_ctrl_init : M (Option UblkDev)
  ublk_ctrl_init = do
    dev ← call host.answers calloc_dev
    fd ← call host.answers open_ctrl
    elim (eqb dev (pos 0)) [
      | true ↦ null_deref
      | false ↦ elim (is_neg fd) [
        | true ↦ exit fd
        | false ↦ do
          ret ← call host.answers setup_ctrl_ring
          elim (is_neg ret) [
            | true ↦ do call host.answers free_dev; pure none
            | false ↦ pure (some new_dev)
          ]
      ]
    ]

  unfoldable pub ublk_ctrl_deinit : Option UblkDev → M (Unit {0})
  ublk_ctrl_deinit none = null_deref
  ublk_ctrl_deinit (some dev) = do call host.answers close_ctrl; call host.answers free_dev; pure tt
