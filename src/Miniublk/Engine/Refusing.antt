-- ===== src/Miniublk/Engine/Refusing.antt =====
-- The loop target and the operations that it does not support.
use ndt.Base.{ℕ, ◌≡◌, ◌⊎◌, arith, Bool, true, neg, some, List, ◌∷◌}
use ndt.Miniublk.Abi.{Abi, IsLinux}
use ndt.Miniublk.Types.{Slot, stale, UblkQueue}
use ndt.Miniublk.Queue.{io_uring_get_sqe}
use ndt.Miniublk.Engine.{file_op_for, loop_queue_tgt_io}

module _ (abi : Abi) (has_room : List Slot → Bool) (linux : IsLinux abi) where
  -- On a discard or a write of zeroes, with room in the submission queue, the loop target answers
  -- -ENOTSUP, and an entry that nothing was written into stays in the submission queue.
  loop_queue_tgt_io_unsupported :
      (q : UblkQueue) (tag : ℕ)
      → ((q.io_cmd_buf tag).op ≡ abi.op_discard) ⊎ ((q.io_cmd_buf tag).op ≡ abi.op_write_zeroes)
      → has_room q.sq ≡ true
      → loop_queue_tgt_io abi has_room q tag
        ≡ some (neg abi.enotsup, record q { sq = stale ∷ q.sq })
  unfolding loop_queue_tgt_io io_uring_get_sqe file_op_for
  loop_queue_tgt_io_unsupported q tag h room =
      ground (arith, linux.discard_flush_differ, linux.zeroes_flush_differ)
