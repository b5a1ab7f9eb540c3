-- ===== src/Miniublk/Engine.antt =====
-- The targets' part in serving a request, the handling of completions, and the thread's loop.
-- `none` is a failed assertion or an access past `ios[UBLK_QUEUE_DEPTH]`.
pub mod Serving
pub mod Handling
pub mod Refusing
use ndt.Base.{ℕ, ◌+◌, ◌-◌, ◌*◌, ◌%◌, ◌^◌, ℤ, pos, neg, is_neg, eqb, int_of_u32, ◌⊎◌, inl, inr}
use ndt.Base.{Bool, true, false, not, ◌&&◌, ◌||◌, if◌then◌else◌, ltb, ◌==◌}
use ndt.Base.{Option, none, some, List, [], ◌∷◌}
use ndt.Miniublk.Abi.{Abi}
use ndt.Miniublk.UserData.{build_user_data, user_data_to_tag, is_target_io}
use ndt.Miniublk.Types.{UblksrvIoDesc, null_tgt, loop_tgt, FileOp, sync_file_range, read, write}
use ndt.Miniublk.Types.{FileIo, Slot, file_io, UblkQueue, Cqe, Wakeup}
use ndt.Miniublk.Queue.{◌>>=◌, get_io, set_flags, no_flags, io_uring_get_sqe, fill_sqe}
use ndt.Miniublk.Queue.{ublk_complete_io, ublk_submit_fetch_commands, ublk_queue_is_idle}
use ndt.Miniublk.Queue.{ublk_queue_is_done, ublk_queue_idle_enter, ublk_queue_idle_exit}

abbrev pub ublksrv_io_idle_secs : ℕ
ublksrv_io_idle_secs = 20

-- `iod->nr_sectors << 9` and `iod->start_sector << 9`.
unfoldable pub byte_count : UblksrvIoDesc → ℕ
byte_count iod = iod.nr_sectors * 2 ^ 9 % 2 ^ 32

unfoldable pub byte_offset : UblksrvIoDesc → ℕ
byte_offset iod = iod.start_sector * 2 ^ 9 % 2 ^ 64

module _ (abi : Abi) (has_room : List Slot → Bool) where
  unfoldable pub ublk_null_queue_io : UblkQueue → ℕ → Option UblkQueue
  unfolding byte_count
  ublk_null_queue_io q tag = do
    r ← ublk_complete_io abi has_room q tag (int_of_u32 (byte_count (q.io_cmd_buf tag)))
    some (r.1)

  -- The `switch` on the operation: what is asked of the backing file, or the error returned.
  unfoldable pub file_op_for : ℕ → FileOp ⊎ ℤ
  file_op_for op =
      if op == abi.op_flush
      then inl sync_file_range
      else (if op == abi.op_write_zeroes || op == abi.op_discard
          then inr (neg abi.enotsup)
          else (if op == abi.op_read
              then inl read
              else (if op == abi.op_write then inl write else inr (neg abi.einval))))

  -- `sync_file_range` takes no buffer.
  unfoldable pub file_io_for : UblksrvIoDesc → FileOp → ℕ → FileIo
  unfolding byte_count byte_offset
  file_io_for iod op user_data = record {
    op = op;
    addr = elim op [ sync_file_range ↦ none | _ ↦ some iod.addr ];
    len = byte_count iod;
    offset = byte_offset iod;
    user_data = user_data;
  }

  -- The entry of the submission queue is taken before the operation is looked at.
  unfoldable pub loop_queue_tgt_io : UblkQueue → ℕ → Option (ℤ × UblkQueue)
  unfolding io_uring_get_sqe fill_sqe
  loop_queue_tgt_io q tag =
      let iod = q.io_cmd_buf tag in
      elim (io_uring_get_sqe has_room q.sq) [
        | none ↦ some (neg abi.enomem, q)
        | some sq ↦ elim (file_op_for iod.op) [
          | inr e ↦ some (e, record q { sq = sq })
          | inl op ↦ do
            user_data ← build_user_data tag iod.op 0 1
            some (
              pos 1,
              record q {
                sq = fill_sqe sq (file_io (file_io_for iod op user_data));
                io_inflight = (q.io_inflight + 1) % 2 ^ 32;
              },
            )
        ]
      ]

  unfoldable pub ublk_loop_queue_io : UblkQueue → ℕ → Option UblkQueue
  ublk_loop_queue_io q tag = do
    r ← loop_queue_tgt_io q tag
    elim (is_neg r.0) [
      | true ↦ do done ← ublk_complete_io abi has_room r.1 tag r.0; some (done.1)
      | false ↦ some r.1
    ]

  unfoldable pub ublk_loop_io_done : UblkQueue → ℕ → Cqe → Option UblkQueue
  ublk_loop_io_done q tag cqe =
      if tag == user_data_to_tag cqe.user_data
      then (do
        r ← ublk_complete_io abi has_room q tag cqe.res
        some (record (r.1) { io_inflight = ((r.1).io_inflight + 2 ^ 32 - 1) % 2 ^ 32 }))
      else none

  -- `q->tgt_ops->queue_io`; only the loop target has a `tgt_io_done`.
  unfoldable pub queue_io : UblkQueue → ℕ → Option UblkQueue
  queue_io q tag = elim q.tgt [
    | null_tgt ↦ ublk_null_queue_io q tag
    | loop_tgt ↦ ublk_loop_queue_io q tag
  ]

  unfoldable pub ublksrv_handle_tgt_cqe : UblkQueue → Cqe → Option UblkQueue
  ublksrv_handle_tgt_cqe q cqe = elim q.tgt [
    | null_tgt ↦ some q
    | loop_tgt ↦ ublk_loop_io_done q (user_data_to_tag cqe.user_data) cqe
  ]

  -- `if (!fetch)`: the queue stops, and the io is not fetched for again.
  unfoldable pub note_stop : UblkQueue → ℕ → Bool → UblkQueue
  unfolding set_flags
  note_stop q tag fetch =
      if fetch
      then q
      else set_flags (record q { state = record (q.state) { stopping = true } }) tag
          (record ((q.ios tag).flags) { need_fetch_rq = false })

  -- A request to serve is passed to the target; on any other answer the io is only marked free.
  unfoldable pub finish_command : UblkQueue → ℕ → ℤ → Option UblkQueue
  unfolding set_flags
  finish_command q tag res =
      if eqb res abi.io_res_ok
      then (if ltb tag q.q_depth then queue_io q tag else none)
      else some (set_flags q tag (record no_flags { io_free = true }))

  -- The part for a command of the driver.
  unfoldable pub handle_command : UblkQueue → ℕ → ℤ → Option UblkQueue
  handle_command q tag res = do
    io ← get_io q tag
    let fetch = not (eqb res abi.io_res_abort) && not q.state.stopping
    let taken = record q { cmd_inflight = (q.cmd_inflight + 2 ^ 32 - 1) % 2 ^ 32 }
    finish_command (note_stop taken tag fetch) tag res

  unfoldable pub ublk_handle_cqe : UblkQueue → Cqe → Option UblkQueue
  ublk_handle_cqe q cqe =
      if is_target_io cqe.user_data
      then ublksrv_handle_tgt_cqe q cqe
      else handle_command q (user_data_to_tag cqe.user_data) cqe.res

  -- The completions that the ring shows, in their order, and how many there were.
  unfoldable pub ublk_reap_events_uring : UblkQueue → List Cqe → Option (ℕ × UblkQueue)
  ublk_reap_events_uring q [] = some (0, q)
  ublk_reap_events_uring q (cqe ∷ cqes) = do
    q' ← ublk_handle_cqe q cqe
    r ← ublk_reap_events_uring q' cqes
    some (r.0 + 1, r.1)

  -- After the wait: the completions are handled, and a queue with nothing to do goes idle.
  unfoldable pub process_io_body : UblkQueue → Wakeup → Option (ℤ × UblkQueue)
  unfolding ublk_queue_idle_enter ublk_queue_idle_exit ublk_queue_is_idle
  process_io_body q w = do
    r ← ublk_reap_events_uring (record q { sq = w.kept }) w.cqes
    let asleep = eqb w.ret (neg abi.etime) && (r.0 == 0) && ublk_queue_is_idle (r.1)
    let q' =
        if (r.1).state.stopping
        then r.1
        else (if asleep then ublk_queue_idle_enter (r.1) else ublk_queue_idle_exit (r.1))
    some (pos (r.0), q')

  -- The ring is asked to wait for 20 seconds, or without an end while the queue is idle.
  unfoldable pub ublk_process_io : UblkQueue → (Option ℕ → Wakeup) → Option (ℤ × UblkQueue)
  unfolding process_io_body ublk_queue_is_done
  ublk_process_io q wait =
      if ublk_queue_is_done q
      then some (neg abi.enodev, q)
      else process_io_body q (wait (if q.state.idle then none else some ublksrv_io_idle_secs))
