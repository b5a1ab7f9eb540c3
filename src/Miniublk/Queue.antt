-- ===== src/Miniublk/Queue.antt =====
-- The commands that a queue sends to the ublk driver, and when it is idle or done.
-- `none` is a failed assertion or an access past `ios[UBLK_QUEUE_DEPTH]`.
pub mod Recycling
use ndt.Base.{ℕ, zero, suc, ◌+◌, ◌%◌, ◌^◌, ℤ, pos, negsuc, u32_of_int, int_of_u32}
use ndt.Base.{Bool, true, false, not, ◌&&◌, ◌||◌, if◌then◌else◌, ltb, ◌==◌, update, length}
use ndt.Base.{Option, none, some, List, [], ◌∷◌}
use ndt.Miniublk.Abi.{Abi}
use ndt.Miniublk.UserData.{build_user_data}
use ndt.Miniublk.Types.{IoFlags, UblkIo, IoCmd, Slot, stale, io_cmd, UblkQueue}

infixl 5 ◌>>=◌
abbrev pub ◌>>=◌ {ℓ κ} : {A : Type ℓ} {B : Type κ} → Option A → (A → Option B) → Option B
none >>= f = none
some a >>= f = f a

abbrev pub ublk_queue_depth : ℕ
ublk_queue_depth = 128

abbrev pub no_flags : IoFlags
no_flags = record { need_fetch_rq = false; need_commit_rq_comp = false; io_free = false }

-- `&q->ios[tag]`.
unfoldable pub get_io : UblkQueue → ℕ → Option UblkIo
get_io q tag = if ltb tag ublk_queue_depth then some (q.ios tag) else none

unfoldable pub set_flags : UblkQueue → ℕ → IoFlags → UblkQueue
set_flags q tag f = record q { ios = update q.ios tag (record (q.ios tag) { flags = f }) }

unfoldable pub ublk_mark_io_done : UblkIo → ℤ → UblkIo
ublk_mark_io_done io res = record io {
  flags = record (io.flags) { need_commit_rq_comp = true; io_free = true };
  result = u32_of_int res;
}

-- io_uring_get_sqe: NULL when the ring has no vacant entry, which `has_room` decides from the
-- entries not yet submitted, and else a further entry, handed out as a former use left it.
unfoldable pub io_uring_get_sqe : (List Slot → Bool) → List Slot → Option (List Slot)
io_uring_get_sqe has_room sq = if has_room sq then some (stale ∷ sq) else none

-- Writing through the pointer that `io_uring_get_sqe` returned last.
unfoldable pub fill_sqe : List Slot → Slot → List Slot
fill_sqe [] s = []
fill_sqe (x ∷ sq) s = s ∷ sq

module _ (abi : Abi) (has_room : List Slot → Bool) where
  -- The command for an io whose flags ask for one.
  unfoldable pub cmd_op_for : IoFlags → ℕ
  cmd_op_for f =
      if f.need_commit_rq_comp
      then abi.commit_and_fetch_req
      else (if f.need_fetch_rq then abi.fetch_req else 0)

  -- `cmd->result`: an `int` again.
  unfoldable pub cmd_for : UblkQueue → UblkIo → ℕ → ℕ → IoCmd
  unfolding cmd_op_for
  cmd_for q io tag user_data =
      let op = cmd_op_for io.flags in
      record {
        cmd_op = op;
        tag = tag;
        q_id = q.q_id;
        addr = io.buf_addr;
        result = if op == abi.commit_and_fetch_req then some (int_of_u32 io.result) else none;
        user_data = user_data;
      }

  unfoldable pub ublk_queue_io_cmd : UblkQueue → UblkIo → ℕ → Option (ℤ × UblkQueue)
  unfolding cmd_for io_uring_get_sqe fill_sqe set_flags
  ublk_queue_io_cmd q io tag =
      if not io.flags.io_free
      then some (pos 0, q)
      else (if not (io.flags.need_fetch_rq || io.flags.need_commit_rq_comp)
          then some (pos 0, q)
          else elim (io_uring_get_sqe has_room q.sq) [
            | none ↦ some (negsuc 0, q)
            | some sq ↦ do
              user_data ← build_user_data tag (cmd_op_for io.flags) 0 0
              some (
                pos 1,
                record (set_flags q tag no_flags) {
                  sq = fill_sqe sq (io_cmd (cmd_for q io tag user_data));
                  cmd_inflight = (q.cmd_inflight + 1) % 2 ^ 32;
                },
              )
          ])

  unfoldable pub ublk_complete_io : UblkQueue → ℕ → ℤ → Option (ℤ × UblkQueue)
  unfolding get_io ublk_mark_io_done
  ublk_complete_io q tag res = do
    io ← get_io q tag
    let done = ublk_mark_io_done io res
    ublk_queue_io_cmd (record q { ios = update q.ios tag done }) done tag

  -- The loop at index `i` with `left` rounds to go.
  unfoldable pub submit_fetch_from : ℕ → ℕ → UblkQueue → Option UblkQueue
  unfolding get_io
  submit_fetch_from zero i q = some q
  submit_fetch_from (suc left) i q = do
    io ← get_io q i
    r ← ublk_queue_io_cmd q io i
    submit_fetch_from left (i + 1) (r.1)

  unfoldable pub ublk_submit_fetch_commands : UblkQueue → Option UblkQueue
  ublk_submit_fetch_commands q = submit_fetch_from q.q_depth 0 q

unfoldable pub ublk_queue_is_idle : UblkQueue → Bool
ublk_queue_is_idle q = (length q.sq == 0) && (q.io_inflight == 0)

unfoldable pub ublk_queue_is_done : UblkQueue → Bool
unfolding ublk_queue_is_idle
ublk_queue_is_done q = q.state.stopping && ublk_queue_is_idle q

-- `madvise` on the buffers changes no state of the queue.
unfoldable pub ublk_queue_idle_enter : UblkQueue → UblkQueue
ublk_queue_idle_enter q =
    if q.state.idle then q else record q { state = record (q.state) { idle = true } }

unfoldable pub ublk_queue_idle_exit : UblkQueue → UblkQueue
ublk_queue_idle_exit q =
    if q.state.idle then record q { state = record (q.state) { idle = false } } else q
