-- ===== src/Tests/Serving.antt =====
-- A queue at work: two fetches, a read of the backing file, and its result.
use ndt.Base.{ℕ, ◌^◌, ◌≡◌, refl, arith, true, false, Option, none, some}
use ndt.Base.{[], ◌∷◌, pos, negsuc, length, inl, inr}
use ndt.Miniublk.UserData.{
  user_data_to_tag, user_data_word, build_user_data, Decodes, build_user_data-Decodes,
}
use ndt.Miniublk.Types.{Slot, file_io, read, loop_tgt, UblkQueue, Cqe, Wakeup}
use ndt.Miniublk.Queue.{get_io, ublk_mark_io_done, io_uring_get_sqe, fill_sqe, cmd_op_for}
use ndt.Miniublk.Queue.{ublk_queue_io_cmd, ublk_complete_io, ublk_queue_is_idle}
use ndt.Miniublk.Queue.{ublk_queue_is_done}
use ndt.Miniublk.Engine.{byte_count, byte_offset, file_op_for, file_io_for, loop_queue_tgt_io}
use ndt.Miniublk.Engine.{ublk_loop_queue_io, ublk_loop_io_done, queue_io, ublksrv_handle_tgt_cqe}
use ndt.Miniublk.Engine.{note_stop, finish_command, handle_command, ublk_handle_cqe}
use ndt.Miniublk.Engine.{ublk_process_io}
use ndt.Miniublk.Ledger.{files}
use ndt.Miniublk.World.{World, Balanced, take, complete, Reach, here, next}
use ndt.Miniublk.World.Safety.{Reach-Balanced, Reach-handles}
use ndt.Miniublk.World.Draining.Ending.{IsDrained, drains}
use ndt.Miniublk.World.Counting.{done_quiet}
use ndt.Miniublk.World.Rounds.{none_left, one_more, ublk_process_io_serves}
use ndt.Tests.Machine.{linux, linux-IsLinux, four, fetch_of, two_ios, at_start, at_start-Balanced}

abbrev after : Option UblkQueue → UblkQueue
after none = two_ios
after (some q) = q

abbrev sent : World
sent = record { queue = record two_ios { sq = fetch_of 1 ∷ [] }; outstanding = fetch_of 0 ∷ [] }

abbrev fetched : Cqe
fetched = record { user_data = 0x200000; res = pos 0 }

abbrev the_read : Slot
the_read =
    file_io
      (record { op = read; addr = some 0x1000; len = 4096; offset = 8192; user_data = 2 ^ 63 })

abbrev asked_queue : UblkQueue
asked_queue = record two_ios { cmd_inflight = 1; io_inflight = 1; sq = the_read ∷ fetch_of 1 ∷ [] }

fetched_test : ublk_handle_cqe linux four sent.queue fetched ≡ some asked_queue
unfolding ublk_handle_cqe handle_command get_io note_stop finish_command queue_io ublk_loop_queue_io
    loop_queue_tgt_io io_uring_get_sqe fill_sqe file_op_for file_io_for byte_count byte_offset
    build_user_data user_data_word user_data_to_tag
fetched_test = refl

abbrev reading : World
reading = record {
  queue = record asked_queue { sq = [] };
  outstanding = the_read ∷ fetch_of 1 ∷ [];
}

-- The read has given 4096 bytes.
abbrev read_done : Cqe
read_done = record { user_data = 2 ^ 63; res = pos 4096 }

abbrev done_queue : UblkQueue
done_queue = after (ublk_handle_cqe linux four reading.queue read_done)

done_test : ublk_handle_cqe linux four reading.queue read_done ≡ some done_queue
unfolding ublk_handle_cqe ublksrv_handle_tgt_cqe ublk_loop_io_done ublk_complete_io get_io
    ublk_mark_io_done ublk_queue_io_cmd io_uring_get_sqe cmd_op_for build_user_data user_data_word
    user_data_to_tag
done_test = refl

abbrev done : World
done = record { queue = done_queue; outstanding = fetch_of 1 ∷ [] }

-- The commit has the number of bytes that were read.
committed_test :
    (done_queue.cmd_inflight ≡ 2) × (done_queue.io_inflight ≡ 0) × (length done_queue.sq ≡ 1)
unfolding ublk_handle_cqe ublksrv_handle_tgt_cqe ublk_loop_io_done ublk_complete_io get_io
    ublk_mark_io_done ublk_queue_io_cmd io_uring_get_sqe cmd_op_for build_user_data user_data_word
    user_data_to_tag fill_sqe
committed_test = (refl, refl, refl)

a_read : Reach linux four at_start done
a_read =
    next
      (next
        (next (next here (take (fetch_of 1 ∷ []) (fetch_of 0 ∷ []) refl))
          (complete [] (fetch_of 0) [] fetched asked_queue refl refl fetched_test))
        (take [] (the_read ∷ fetch_of 1 ∷ []) refl))
      (complete [] the_read (fetch_of 1 ∷ []) read_done done_queue refl refl done_test)

Reach-Balanced_example : Balanced linux 2 loop_tgt done
Reach-Balanced_example = Reach-Balanced linux four linux-IsLinux 2 loop_tgt at_start-Balanced a_read

-- The driver gives the second io up.
abbrev aborted : Cqe
aborted = record { user_data = 0x200001; res = negsuc 18 }

Reach-handles_example : (q : UblkQueue) × (ublk_handle_cqe linux four done.queue aborted ≡ some q)
Reach-handles_example =
    Reach-handles linux four linux-IsLinux 2 loop_tgt at_start-Balanced a_read [] (fetch_of 1) []
      aborted refl refl

-- The kernel takes the older fetch only, and completes it.
abbrev one_fetched : Wakeup
one_fetched = record { ret = pos 1; kept = fetch_of 1 ∷ []; cqes = fetched ∷ [] }

running_test : ublk_queue_is_done two_ios ≡ false
unfolding ublk_queue_is_done
running_test = refl

ublk_process_io_serves_example :
    (q : UblkQueue) × (ublk_process_io linux four two_ios (λ t. one_fetched) ≡ some (pos 1, q))
    × Balanced linux 2 loop_tgt (record { queue = q; outstanding = [] })
ublk_process_io_serves_example =
    ublk_process_io_serves linux four linux-IsLinux 2 loop_tgt at_start (λ t. one_fetched)
      one_fetched (fetch_of 0 ∷ []) [] at_start-Balanced running_test refl refl
      (one_more _ [] (fetch_of 0) [] fetched [] [] refl refl (none_left []))

-- A queue that was given up: its only io is free, and nothing is counted.
abbrev given_up : UblkQueue
given_up = record two_ios {
  q_depth = 1;
  cmd_inflight = 0;
  sq = [];
  ios = λ t. record {
    buf_addr = 0x1000;
    flags = record { need_fetch_rq = false; need_commit_rq_comp = false; io_free = true };
    result = 0;
  };
  state = record { stopping = true; idle = false };
}

given_up-Balanced : Balanced linux 1 loop_tgt (record { queue = given_up; outstanding = [] })
given_up-Balanced = record {
  fits = omega arith;
  depth_fixed = refl;
  tgt_fixed = refl;
  sq_filled = tt;
  out_filled = tt;
  one = λ t h. refl;
  cmds_counted = refl;
  files_counted = refl;
  servable = λ t. inr (inl refl);
}

given_up_test : ublk_queue_is_done given_up ≡ true
unfolding ublk_queue_is_done ublk_queue_is_idle
given_up_test = refl

done_quiet_example : (given_up.state.stopping ≡ true) × (given_up.sq ≡ []) × (files [] ≡ 0)
done_quiet_example =
    done_quiet linux 1 loop_tgt (record { queue = given_up; outstanding = [] }) given_up-Balanced
      given_up_test

build_user_data-Decodes_example :
    (word : ℕ) × (build_user_data 5 0x21 0x100 1 ≡ some word) × Decodes word 5 0x21 true
build_user_data-Decodes_example =
    build_user_data-Decodes 5 0x21 0x100 true (omega arith) (omega arith) (omega arith)

-- The second fetch is still outstanding.
drains_example :
    (w : World) × Reach linux four done w × IsDrained linux four linux-IsLinux refl 2 loop_tgt w
drains_example =
    drains linux four linux-IsLinux refl 2 loop_tgt done
      (Reach-Balanced linux four linux-IsLinux 2 loop_tgt at_start-Balanced a_read)
      (inr (omega arith))
