-- ===== src/Miniublk/World/Draining.antt =====
-- How a queue that stops handles its last completions: the driver gives all commands up.
pub mod Ending
use ndt.Base.{
  ℕ, zero, suc, ◌+◌, ◌-◌, ◌*◌, ◌%◌, ◌^◌, ◌≤◌, ◌<◌, ◌≡◌, ◌⊎◌, inl, inr, refl, sym, ◌∙◌, ap, arith,
}
use ndt.Base.{Bool, true, false, not, ◌&&◌, ◌==◌, bit, lt→ltb, Bool-cases, subst, some-injective}
use ndt.Base.{
  List, [], ◌∷◌, ◌++◌, length, All, All-middle, Option, some, ℤ, pos, negsuc, eqb, eqb_refl,
}
use ndt.Miniublk.Abi.{Abi, IsLinux}
use ndt.Miniublk.UserData.{user_data_to_tag, is_target_io}
use ndt.Miniublk.Types.{Target, loop_tgt, Slot, stale, io_cmd, file_io, UblkQueue, Cqe}
use ndt.Miniublk.Queue.{get_io, set_flags, no_flags, ublk_queue_depth, ublk_queue_is_done}
use ndt.Miniublk.Queue.Recycling.{Recycled, ublk_complete_io-Recycled}
use ndt.Miniublk.Ledger.{IsFilled, slot_user_data, is_cmd, busy, cmds, files}
use ndt.Miniublk.Engine.{
  note_stop, finish_command, handle_command, ublk_handle_cqe, ublk_loop_io_done,
  ublksrv_handle_tgt_cqe,
}
use ndt.Miniublk.World.{World, Step, take, complete, Reach, here, next, Balanced}
use ndt.Miniublk.World.Safety.{Reach-Balanced}

-- The completions that are left to handle: a file I/O may be followed by a command.
abbrev cost : Slot → ℕ
cost (file_io f) = 2
cost _ = 1

abbrev costs : List Slot → ℕ
costs [] = 0
costs (s ∷ slots) = cost s + costs slots

module _ (abi : Abi) (has_room : List Slot → Bool) (linux : IsLinux abi)
    (abort_differs : eqb abi.io_res_abort abi.io_res_ok ≡ false) where
  -- What handling a completion leaves of a stopping queue.
  pub record Handled (left : ℕ) (q : UblkQueue) (r : Option UblkQueue) : Type 0 where
    pub after : UblkQueue
    pub returns : r ≡ some after
    pub stopping : after.state.stopping ≡ true
    pub fewer : costs after.sq < costs q.sq + left

  -- A command that the driver gives up stops the queue, and leaves its io free.
  given_up :
      (q : UblkQueue) (tag : ℕ)
      → tag < ublk_queue_depth
      → Handled 1 q (handle_command abi has_room q tag abi.io_res_abort)
  given_up q tag below = record {
    after =
        set_flags (note_stop abi has_room taken tag false) tag (record no_flags { io_free = true });
    returns =
        unfold handle_command get_io finish_command in
        (rw (lt→ltb tag ublk_queue_depth below, eqb_refl abi.io_res_abort, abort_differs) refl);
    stopping = unfold note_stop set_flags in refl;
    fewer = unfold note_stop set_flags in omega arith;
  }
    where
      taken : UblkQueue
      taken = record q { cmd_inflight = (q.cmd_inflight + 2 ^ 32 - 1) % 2 ^ 32 }

  -- A file I/O that ends is followed by a commit command, or by nothing where there is no room.
  committed :
      (q : UblkQueue) (cqe : Cqe)
      → user_data_to_tag cqe.user_data < ublk_queue_depth
      → q.state.stopping ≡ true
      → Handled 2 q (ublk_loop_io_done abi has_room q (user_data_to_tag cqe.user_data) cqe)
  committed q cqe below stops =
      let tag = user_data_to_tag cqe.user_data in
      let r = ublk_complete_io-Recycled abi has_room linux q tag cqe.res below in
      record {
        after = record (r.after) { io_inflight = ((r.after).io_inflight + 2 ^ 32 - 1) % 2 ^ 32 };
        returns = unfold ublk_loop_io_done in ground (arith, r.returns);
        stopping = ground (arith, r.same.same_state, stops);
        fewer = elim r.outcome [
          | inl (room, e, i) ↦ rw (i.queued) (omega arith)
          | inr (full, e, b) ↦ rw (b.nothing_queued) (omega arith)
        ];
      }

  -- A completion of an entry: the driver gives a command up, a file I/O ends with 0.
  unfoldable pub last_cqe : Slot → Cqe
  last_cqe (file_io f) = record { user_data = f.user_data; res = pos 0 }
  last_cqe s = record { user_data = slot_user_data s; res = abi.io_res_abort }

  pub last_cqe-eq : (s : Slot) → (last_cqe s).user_data ≡ slot_user_data s
  unfolding last_cqe
  last_cqe-eq stale = refl
  last_cqe-eq (io_cmd c) = refl
  last_cqe-eq (file_io f) = refl

  command_handled :
      (q : UblkQueue) (cqe : Cqe)
      → is_target_io cqe.user_data ≡ false
      → ublk_handle_cqe abi has_room q cqe
        ≡ handle_command abi has_room q (user_data_to_tag cqe.user_data) cqe.res
  command_handled q cqe h = unfold ublk_handle_cqe in (rw h)

  file_handled :
      (q : UblkQueue) (cqe : Cqe)
      → is_target_io cqe.user_data ≡ true
      → q.tgt ≡ loop_tgt
      → ublk_handle_cqe abi has_room q cqe
        ≡ ublk_loop_io_done abi has_room q (user_data_to_tag cqe.user_data) cqe
  file_handled q cqe h t = unfold ublk_handle_cqe ublksrv_handle_tgt_cqe in (rw h (ground arith))

  pub handled :
      (depth : ℕ) (tgt : Target) (q : UblkQueue) (s : Slot)
      → depth ≤ ublk_queue_depth
      → q.tgt ≡ tgt
      → IsFilled depth tgt s
      → (q.state.stopping ≡ true) ⊎ (is_cmd s ≡ true)
      → Handled (cost s) q (ublk_handle_cqe abi has_room q (last_cqe s))
  unfolding last_cqe
  handled depth tgt q stale fits t filled stops = absurd filled
  handled depth tgt q (io_cmd c) fits t (below, mark) stops =
      subst (Handled 1 q) (sym (command_handled q _ mark))
        (given_up q (user_data_to_tag c.user_data) (omega (arith, below, fits)))
  handled depth tgt q (file_io f) fits t (below, mark, loop) (inl stops) =
      subst (Handled 2 q) (sym (file_handled q _ mark (t ∙ loop)))
        (committed q _ (omega (arith, below, fits)) stops)
  handled depth tgt q (file_io f) fits t filled (inr cmd) = cc
