-- ===== src/Miniublk/Types.antt =====
-- The data of a queue thread: `struct ublk_io`, `struct ublk_queue`, and the submissions it writes.
use ndt.Base.{ℕ, ℤ, Bool, Option, List}

-- The bits of `ublk_io.flags`: UBLKSRV_NEED_FETCH_RQ, UBLKSRV_NEED_COMMIT_RQ_COMP, UBLKSRV_IO_FREE.
pub record IoFlags : Type 0 where
  pub need_fetch_rq : Bool
  pub need_commit_rq_comp : Bool
  pub io_free : Bool

-- `result` is an `unsigned int`.
pub record UblkIo : Type 0 where
  pub buf_addr : ℕ
  pub flags : IoFlags
  pub result : ℕ

-- `struct ublksrv_io_desc`, which the driver writes: the operation, and a 32-bit count of sectors.
pub record UblksrvIoDesc : Type 0 where
  pub op : ℕ
  pub nr_sectors : ℕ
  pub start_sector : ℕ
  pub addr : ℕ

-- The two entries of `tgt_ops_list`.
pub data Target : Type 0 where
  null_tgt loop_tgt : Target

-- What `ublk_queue_io_cmd` writes into a submission; `result` stays unwritten on a plain fetch.
pub record IoCmd : Type 0 where
  pub cmd_op : ℕ
  pub tag : ℕ
  pub q_id : ℕ
  pub addr : ℕ
  pub result : Option ℤ
  pub user_data : ℕ

pub data FileOp : Type 0 where
  sync_file_range read write : FileOp

-- What `loop_queue_tgt_io` writes into a submission for the backing file.
pub record FileIo : Type 0 where
  pub op : FileOp
  pub addr : Option ℕ
  pub len : ℕ
  pub offset : ℕ
  pub user_data : ℕ

-- An entry of the submission queue; `stale` was handed out and holds what a former use left.
pub data Slot : Type 0 where
  stale : Slot
  io_cmd : IoCmd → Slot
  file_io : FileIo → Slot

-- The bits of `ublk_queue.state`: UBLKSRV_QUEUE_STOPPING and UBLKSRV_QUEUE_IDLE.
pub record QueueState : Type 0 where
  pub stopping : Bool
  pub idle : Bool

-- `sq` holds the entries handed out since the last submission, the newest first.
pub record UblkQueue : Type 0 where
  pub q_id : ℕ
  pub q_depth : ℕ
  pub cmd_inflight : ℕ
  pub io_inflight : ℕ
  pub tgt : Target
  pub io_cmd_buf : ℕ → UblksrvIoDesc
  pub sq : List Slot
  pub ios : ℕ → UblkIo
  pub state : QueueState

-- `struct io_uring_cqe`.
pub record Cqe : Type 0 where
  pub user_data : ℕ
  pub res : ℤ

-- What io_uring_submit_and_wait_timeout answers: its result, the entries that the kernel has not
-- taken, and the completions that the ring then shows.
pub record Wakeup : Type 0 where
  pub ret : ℤ
  pub kept : List Slot
  pub cqes : List Cqe
