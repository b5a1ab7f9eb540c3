-- ===== src/Miniublk/Ledger.antt =====
-- Who holds each tag of a queue: the server's free list, a command with the driver, or an I/O on the
-- backing file; and what `cmd_inflight` and `io_inflight` count.
pub mod Handback
use ndt.Base.{ℕ, ◌+◌, ◌%◌, ◌^◌, ◌≤◌, ◌<◌, ◌≡◌, ◌⊎◌, Bool, true, false, ◌==◌, bit, List, All}
use ndt.Base.{count_if}
use ndt.Miniublk.Abi.{Abi}
use ndt.Miniublk.UserData.{user_data_to_tag, is_target_io}
use ndt.Miniublk.Types.{
  Target, null_tgt, loop_tgt, UblksrvIoDesc, Slot, stale, io_cmd, file_io, UblkQueue,
}
use ndt.Miniublk.Queue.{ublk_queue_depth}

abbrev pub slot_user_data : Slot → ℕ
slot_user_data stale = 0
slot_user_data (io_cmd c) = c.user_data
slot_user_data (file_io f) = f.user_data

abbrev pub is_cmd : Slot → Bool
is_cmd (io_cmd c) = true
is_cmd _ = false

abbrev pub is_file : Slot → Bool
is_file (file_io f) = true
is_file _ = false

-- How many of the entries are for the tag.
abbrev pub busy : ℕ → List Slot → ℕ
busy tag = count_if (λ s. user_data_to_tag (slot_user_data s) == tag)

abbrev pub cmds : List Slot → ℕ
cmds = count_if is_cmd

abbrev pub files : List Slot → ℕ
files = count_if is_file

-- An entry that was filled in, for a tag of the queue; only the loop target works on a file.
abbrev pub IsFilled : ℕ → Target → Slot → Type 0
IsFilled depth tgt stale = ⊥
IsFilled depth tgt (io_cmd c) =
    (user_data_to_tag c.user_data < depth) × (is_target_io c.user_data ≡ false)
IsFilled depth tgt (file_io f) =
    (user_data_to_tag f.user_data < depth) × (is_target_io f.user_data ≡ true) × (tgt ≡ loop_tgt)

-- What the target can serve. The loop target gives an entry away unfilled on any other operation.
abbrev pub IsServable : Abi → Target → UblksrvIoDesc → Type 0
IsServable abi null_tgt iod = Unit
IsServable abi loop_tgt iod =
    (iod.op ≡ abi.op_flush) ⊎ (iod.op ≡ abi.op_read) ⊎ (iod.op ≡ abi.op_write)

-- The books of a queue, whose entries are in `q.sq` or were submitted and are in `out`. `held` is 1
-- at a tag that a handler has in its hands, and `extra` counts a file I/O not yet written off.
pub record Ledger (abi : Abi) (depth : ℕ) (tgt : Target) (held : ℕ → ℕ) (extra : ℕ) (q : UblkQueue)
    (out : List Slot) : Type 0 where
  pub fits : depth ≤ ublk_queue_depth
  pub depth_fixed : q.q_depth ≡ depth
  pub tgt_fixed : q.tgt ≡ tgt
  pub sq_filled : All (IsFilled depth tgt) q.sq
  pub out_filled : All (IsFilled depth tgt) out
  pub one :
      (tag : ℕ)
      → tag < depth
      → busy tag q.sq + busy tag out + bit ((q.ios tag).flags.io_free) + held tag ≡ 1
  pub cmds_counted : q.cmd_inflight ≡ (cmds q.sq + cmds out) % 2 ^ 32
  pub files_counted : q.io_inflight ≡ (files q.sq + files out + extra) % 2 ^ 32
  pub servable : (tag : ℕ) → IsServable abi tgt (q.io_cmd_buf tag)

-- Nobody has a tag in hand.
abbrev pub nobody : ℕ → ℕ
nobody t = 0

abbrev pub holding : ℕ → ℕ → ℕ
holding tag t = bit (t == tag)
