-- ===== src/Tests/Starting.antt =====
-- The setup of a queue of two ios for the loop target, and its first commands.
use ndt.Base.{ℕ, ◌<◌, ◌≡◌, refl, arith, true, false, none, some, inl, inr}
use ndt.Base.{List, [], ◌∷◌, pos, length, subst, some-injective}
use ndt.Miniublk.UserData.{user_data_word, build_user_data}
use ndt.Miniublk.Types.{Slot, UblksrvIoDesc, loop_tgt, UblkQueue, Cqe}
use ndt.Miniublk.Queue.{get_io, set_flags, io_uring_get_sqe, fill_sqe, cmd_op_for, cmd_for}
use ndt.Miniublk.Queue.{ublk_queue_io_cmd, submit_fetch_from, ublk_submit_fetch_commands}
use ndt.Miniublk.Engine.{ublk_handle_cqe}
use ndt.Miniublk.Ledger.{Ledger, nobody, IsServable}
use ndt.Miniublk.Setup.{QueueHost, fetch_flags, init_ios, reset_queue, init_mapped, ublk_queue_init}
use ndt.Miniublk.Setup.Fresh.{IsFresh, ublk_queue_init-IsFresh}
use ndt.Miniublk.Setup.Fetching.{ublk_submit_fetch_commands_all}
use ndt.Miniublk.World.{World, take, here, next}
use ndt.Miniublk.World.Start.{started_handles}
use ndt.Miniublk.World.Counting.{counters_exact}
use ndt.Miniublk.Ledger.{cmds, files}
use ndt.Base.{◌+◌, ◌≤◌}
use ndt.Tests.Machine.{linux, linux-IsLinux, four, fetch_of, two_ios, read_request}

-- The memory of the queue before it is set up.
abbrev raw : UblkQueue
raw = record two_ios {
  cmd_inflight = 0;
  sq = [];
  ios = λ t. record { buf_addr = 0; flags = fetch_flags; result = 0 };
}

abbrev machine : QueueHost
machine = record {
  mapped = some (λ t. read_request);
  memalign = λ i. some 0x1000;
  ring_ret = pos 0;
  files_ret = pos 0;
}

abbrev ready : UblkQueue
ready = (ublk_queue_init linux raw 2 loop_tgt machine).1

set_up : (ublk_queue_init linux raw 2 loop_tgt machine).0 ≡ pos 0
unfolding ublk_queue_init init_mapped init_ios
set_up = refl

ready_depth : ready.q_depth ≡ 2
unfolding ublk_queue_init init_mapped reset_queue init_ios
ready_depth = refl

describes :
    (buf : ℕ → UblksrvIoDesc) (t : ℕ)
    → machine.mapped ≡ some buf
    → IsServable linux loop_tgt (buf t)
describes buf t e =
    subst (λ b. IsServable linux loop_tgt (b t)) (some-injective _ _ e) (inr (inl refl))

ready-IsFresh : IsFresh linux ready
ready-IsFresh =
    ublk_queue_init-IsFresh linux raw 2 loop_tgt machine (omega arith) (omega arith) refl describes
      set_up

four_room : (sq : List Slot) → length sq < ready.q_depth → four sq ≡ true
four_room sq h = ground (arith, ready_depth)

ublk_submit_fetch_commands_all_example :
    (q' : UblkQueue) × (ublk_submit_fetch_commands linux four ready ≡ some q')
    × Ledger linux ready.q_depth ready.tgt nobody 0 q' []
    × (length q'.sq ≡ ready.q_depth)
    × ((t : ℕ) → t < ready.q_depth → (q'.ios t).flags.io_free ≡ false)
ublk_submit_fetch_commands_all_example =
    ublk_submit_fetch_commands_all linux four linux-IsLinux ready four_room ready-IsFresh

-- The queue with both fetch commands written.
abbrev launched : UblkQueue
launched = elim (ublk_submit_fetch_commands linux four ready) [ none ↦ ready | some q ↦ q ]

launches : ublk_submit_fetch_commands linux four ready ≡ some launched
unfolding ublk_queue_init init_mapped reset_queue init_ios ublk_submit_fetch_commands
    submit_fetch_from get_io ublk_queue_io_cmd io_uring_get_sqe cmd_op_for build_user_data
launches = refl

launched_sq : launched.sq ≡ fetch_of 1 ∷ fetch_of 0 ∷ []
unfolding ublk_queue_init init_mapped reset_queue init_ios ublk_submit_fetch_commands
    submit_fetch_from get_io ublk_queue_io_cmd io_uring_get_sqe cmd_op_for build_user_data
    user_data_word fill_sqe cmd_for set_flags
launched_sq = refl

abbrev fetched : Cqe
fetched = record { user_data = 0x200000; res = pos 0 }

abbrev all_taken : World
all_taken = record {
  queue = record launched { sq = [] };
  outstanding = fetch_of 1 ∷ fetch_of 0 ∷ [];
}

started_handles_example :
    (after : UblkQueue) × (ublk_handle_cqe linux four all_taken.queue fetched ≡ some after)
started_handles_example =
    started_handles linux four linux-IsLinux raw 2 loop_tgt machine launched all_taken (omega arith)
      refl describes set_up four_room launches
      (next here (take [] (fetch_of 1 ∷ fetch_of 0 ∷ []) launched_sq)) (fetch_of 1 ∷ [])
      (fetch_of 0) [] fetched refl refl

counters_exact_example :
    (all_taken.queue.cmd_inflight ≡ cmds all_taken.queue.sq + cmds all_taken.outstanding)
    × (all_taken.queue.io_inflight ≡ files all_taken.queue.sq + files all_taken.outstanding)
    × (all_taken.queue.cmd_inflight + all_taken.queue.io_inflight ≤ ready.q_depth)
counters_exact_example =
    counters_exact linux four linux-IsLinux raw 2 loop_tgt machine launched all_taken (omega arith)
      refl describes set_up four_room launches
      (next here (take [] (fetch_of 1 ∷ fetch_of 0 ∷ []) launched_sq))
