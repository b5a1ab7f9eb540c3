-- ===== src/Miniublk/Abi.antt =====
-- The numbers that miniublk.c takes from <errno.h> and <linux/ublk_cmd.h>. Neither file is part
-- of the repository, so they are a parameter of the model, with what the code relies on.
use ndt.Base.{ℕ, ◌^◌, ◌<◌, ◌≢◌, ℤ}

pub record Abi : Type 0 where
  pub eagain : ℕ
  pub ebadf : ℕ
  pub einval : ℕ
  pub enodev : ℕ
  pub enomem : ℕ
  pub enotsup : ℕ
  pub etime : ℕ
  -- A request that the driver completes for the server: UBLK_IO_OP_*.
  pub op_read : ℕ
  pub op_write : ℕ
  pub op_flush : ℕ
  pub op_discard : ℕ
  pub op_write_zeroes : ℕ
  -- What the server sends to the driver: UBLK_IO_FETCH_REQ and UBLK_IO_COMMIT_AND_FETCH_REQ.
  pub fetch_req : ℕ
  pub commit_and_fetch_req : ℕ
  -- What the driver answers: UBLK_IO_RES_OK and UBLK_IO_RES_ABORT.
  pub io_res_ok : ℤ
  pub io_res_abort : ℤ

-- What the headers document and the code relies on: error numbers are not zero, the opcodes are
-- told apart and fit the eight bits that `build_user_data` gives them, and the two commands differ.
pub record IsLinux (abi : Abi) : Type 0 where
  pub enodev_pos : 0 < abi.enodev
  pub enomem_pos : 0 < abi.enomem
  pub enotsup_pos : 0 < abi.enotsup
  pub einval_pos : 0 < abi.einval
  pub fetch_req_fits : abi.fetch_req < 2 ^ 8
  pub commit_and_fetch_req_fits : abi.commit_and_fetch_req < 2 ^ 8
  pub commands_differ : abi.fetch_req ≢ abi.commit_and_fetch_req
  pub op_read_fits : abi.op_read < 2 ^ 8
  pub op_write_fits : abi.op_write < 2 ^ 8
  pub op_flush_fits : abi.op_flush < 2 ^ 8
  pub read_write_differ : abi.op_read ≢ abi.op_write
  pub read_flush_differ : abi.op_read ≢ abi.op_flush
  pub write_flush_differ : abi.op_write ≢ abi.op_flush
  pub discard_read_differ : abi.op_discard ≢ abi.op_read
  pub discard_write_differ : abi.op_discard ≢ abi.op_write
  pub discard_flush_differ : abi.op_discard ≢ abi.op_flush
  pub zeroes_read_differ : abi.op_write_zeroes ≢ abi.op_read
  pub zeroes_write_differ : abi.op_write_zeroes ≢ abi.op_write
  pub zeroes_flush_differ : abi.op_write_zeroes ≢ abi.op_flush
