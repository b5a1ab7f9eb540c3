-- ===== src/Miniublk/Control/Monad.antt =====
-- Calls into the system as a trace: each is answered by the host, from what was called before, and
-- the program goes on with the answer, returns, exits, or goes through a null pointer.
pub mod Returning
use ndt.Base.{ℕ, ℤ, Bool, Option, List, ◌∷◌}
use Prim.Native.String.{String}

-- `cmd_op` of a command: UBLK_CMD_*.
pub data CtrlOp : Type 0 where
  add_dev del_dev start_dev stop_dev set_params get_params get_dev_info : CtrlOp
  start_user_recovery end_user_recovery : CtrlOp

-- What a command's buffer holds.
pub data CtrlBuf : Type 0 where
  dev_info_buf params_buf : CtrlBuf

-- `struct ublk_ctrl_cmd_data`: `data` under CTRL_CMD_HAS_DATA, `buf` under CTRL_CMD_HAS_BUF.
pub record UblkCtrlCmdData : Type 0 where
  pub cmd_op : CtrlOp
  pub payload : Option ℤ
  pub buf : Option CtrlBuf

-- `struct ublksrv_ctrl_cmd` as `ublk_ctrl_init_cmd` writes it; `queue_id` is -1.
pub record UblksrvCtrlCmd : Type 0 where
  pub cmd_op : CtrlOp
  pub dev_id : ℤ
  pub queue_id : ℤ
  pub payload : Option ℤ
  pub buf : Option CtrlBuf

pub data Call : Type 0 where
  calloc_dev open_ctrl setup_ctrl_ring close_ctrl free_dev : Call
  ctrl_get_sqe ctrl_wait_cqe ctrl_cqe_res : Call
  ctrl_submit : UblksrvCtrlCmd → Call
  daemonize getpid : Call
  open_cdev : ℤ → Call
  close_cdev : Call
  create_thread join_thread : ℕ → Call
  kill_probe : ℤ → Call
  usleep : Call
  open_backing : String → Call
  fstat_backing ioctl_size ioctl_ssz ioctl_pbsz set_direct close_backing fsync_backing : Call

abbrev pub Trace : Type 0
Trace = List Call

pub data Outcome {ℓ} (A : Type ℓ) : Type ℓ where
  returned : A → Trace → Outcome A
  exited : ℤ → Trace → Outcome A
  null_access : Trace → Outcome A

-- The newest call stands first in a trace.
abbrev pub M {ℓ} : Type ℓ → Type ℓ
M A = Trace → Outcome A

infixl 5 ◌>>=◌ ◌>>◌
unfoldable pub ◌>>=◌ {ℓ κ} : {A : Type ℓ} {B : Type κ} → M A → (A → M B) → M B
◌>>=◌ m f t = elim (m t) [
  | returned a t' ↦ f a t'
  | exited c t' ↦ exited c t'
  | null_access t' ↦ null_access t'
]

abbrev pub ◌>>◌ {ℓ κ} : {A : Type ℓ} {B : Type κ} → M A → M B → M B
◌>>◌ m k = m >>= λ _. k

unfoldable pub pure {ℓ} : {A : Type ℓ} → A → M A
pure a t = returned a t

unfoldable pub exit {ℓ} : {A : Type ℓ} → ℤ → M A
exit c t = exited c t

unfoldable pub null_deref {ℓ} : {A : Type ℓ} → M A
null_deref t = null_access t

-- What the host answers a call after a trace.
abbrev pub Answers : Type 0
Answers = Trace → Call → ℤ

unfoldable pub call : Answers → Call → M ℤ
call answers c t = returned (answers t c) (c ∷ t)
