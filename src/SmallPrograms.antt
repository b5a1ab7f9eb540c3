-- ===== src/SmallPrograms.antt =====
-- What the small programs share: each makes a few system calls in a fixed order.
pub mod Ioctls
pub mod Sequences
pub mod Uring
pub mod Mount
pub mod Resources
use ndt.Base.{
  ℕ, ◌+◌, ◌==◌, Bool, true, false, if◌then◌else◌, ℤ, pos, negsuc, is_neg, eqb, List, [], ◌∷◌,
  Option, none, some,
}

-- The requests of ioctl, whose numbers are the host's.
pub data Request : Type 0 where
  loop_set_block_size loop_change_fd loop_get_status loop_get_status64 nbd_set_size nbd_clear_sock :
      Request
  fs_ioc_getlbmd_cap blkgetzonesz blkgetnrzones sg_set_reserved_size sg_set_timeout : Request

pub data Argument : Type 0 where
  null out : Argument
  number : ℤ → Argument

-- What is written of a submission and of its `struct nvme_passthru_cmd`, less two numbers of the
-- headers, IORING_OP_URING_CMD and NVME_URING_CMD_ADMIN.
pub record UringCmd : Type 0 where
  pub fd : ℤ
  pub opcode : ℕ
  pub addr : ℤ
  pub data_len : ℕ
  pub cdw10 : ℕ

-- `open_file` has the place of the path among the arguments.
pub data Call : Type 0 where
  open_file : ℕ → Call
  close_file : ℤ → Call
  ioctl : ℤ → ℕ → Argument → Call
  write_bytes : ℤ → ℕ → Call
  calloc : ℕ → Call
  free : ℤ → Call
  ring_init : ℕ → Call
  ring_submit : UringCmd → Call
  ring_wait ring_seen ring_exit : Call
  fork : Call
  waitpid : ℤ → Call
  mount umount : Call

pub record Event : Type 0 where
  pub call : Call
  pub answer : ℤ

-- The system: what it answers after some events, the newest first; what it leaves in errno and in the
-- memory it is given; whether the process waited for has ended well; and numbers of its headers.
pub record Host : Type 0 where
  pub answer : List Event → Call → ℤ
  pub errno : List Event → ℕ
  pub out_value : List Event → ℕ
  pub capability : List Event → ℕ × ℕ × ℕ
  pub cqe_res : List Event → Option ℤ
  pub exited_well : List Event → Bool
  pub code : Request → ℕ
  pub einval : ℕ
  pub enomem : ℕ

-- What is printed, but for the messages of failures.
pub data Output : Type 0 where
  nothing got_einval did_not_get_einval unsupported pass fail : Output
  value : ℕ → Output
  capabilities : ℕ × ℕ × ℕ → Output

pub record Ended : Type 0 where
  pub status : ℤ
  pub shown : Output
  pub trace : List Event

abbrev pub Prog : Type 0
Prog = List Event → Ended

abbrev pub exit_with : ℤ → Output → Prog
exit_with status shown t = record { status = status; shown = shown; trace = t }

-- A call, and how the program goes on with its answer.
abbrev pub perform : Host → Call → (ℤ → Prog) → Prog
perform host c k t = k (host.answer t c) (record { call = c; answer = host.answer t c } ∷ t)

-- -1.
abbrev pub failed : ℤ → Bool
failed ret = eqb ret (negsuc 0)

abbrev pub closing : Host → ℤ → ℤ → Output → Prog
closing host fd status shown = perform host (close_file fd) (λ ret. exit_with status shown)

-- How often `for (i = 0; i < n; i++)` runs.
abbrev pub repeats : ℤ → ℕ
repeats (pos n) = n
repeats (negsuc n) = 0
