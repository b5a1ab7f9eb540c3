-- ===== src/Miniublk/Setup.antt =====
-- `ublk_queue_init`: a queue thread's buffers and ring, before any command is sent.
pub mod Fresh
pub mod Fetching
pub mod Release
use ndt.Base.{ℕ, zero, suc, ◌+◌, Bool, true, false, not, ◌&&◌, ◌==◌, if◌then◌else◌, update}
use ndt.Base.{ℤ, pos, neg, is_neg, eqb, Option, none, some, [], ◌⊎◌, inl, inr}
use ndt.Miniublk.Abi.{Abi}
use ndt.Miniublk.Types.{IoFlags, UblkIo, UblksrvIoDesc, Target, QueueState, UblkQueue}

-- What the system answers: the mapped command buffer, the allocation of each io's buffer, the ring's
-- setup and the registration of the files.
pub record QueueHost : Type 0 where
  pub mapped : Option (ℕ → UblksrvIoDesc)
  pub memalign : ℕ → Option ℕ
  pub ring_ret : ℤ
  pub files_ret : ℤ

abbrev pub fetch_flags : IoFlags
fetch_flags = record { need_fetch_rq = true; need_commit_rq_comp = false; io_free = true }

abbrev pub running : QueueState
running = record { stopping = false; idle = false }

-- The loop over the ios at `i`; it ends early where no buffer can be allocated.
unfoldable pub init_ios : (ℕ → Option ℕ) → ℕ → ℕ → (ℕ → UblkIo) → Bool × (ℕ → UblkIo)
init_ios memalign zero i ios = (true, ios)
init_ios memalign (suc left) i ios = elim (memalign i) [
  | none ↦ (false, update ios i (record (ios i) { buf_addr = 0 }))
  | some a ↦
      init_ios memalign left (i + 1)
        (update ios i (record (ios i) { buf_addr = a; flags = fetch_flags }))
]

-- The queue with the fields that are set first, for a device of that depth and target.
unfoldable pub reset_queue : UblkQueue → ℕ → Target → UblkQueue
reset_queue q depth tgt = record q { tgt = tgt; state = running; q_depth = depth; cmd_inflight = 0 }

-- The part after the mapping: 0, or -ENOMEM after the failure of any of the steps.
unfoldable pub init_mapped :
    Abi → UblkQueue → ℕ → Target → QueueHost → (ℕ → UblksrvIoDesc) → ℤ × UblkQueue
unfolding reset_queue
init_mapped abi q depth tgt host buf =
    let made = init_ios host.memalign depth 0 q.ios in
    let ready = record (reset_queue q depth tgt) { io_cmd_buf = buf; sq = []; ios = made.1 } in
    if made.0 && not (is_neg host.ring_ret) && eqb host.files_ret (pos 0)
    then (pos 0, ready)
    else (neg abi.enomem, ready)

unfoldable pub ublk_queue_init : Abi → UblkQueue → ℕ → Target → QueueHost → ℤ × UblkQueue
unfolding reset_queue
ublk_queue_init abi q depth tgt host = elim host.mapped [
  | none ↦ (neg abi.enomem, reset_queue q depth tgt)
  | some buf ↦ init_mapped abi q depth tgt host buf
]
