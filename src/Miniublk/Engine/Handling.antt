-- ===== src/Miniublk/Engine/Handling.antt =====
-- A completion of an entry that the queue submitted is handled without a failed assertion or a wild
-- access, and the books stay balanced.
use ndt.Base.{ℕ, ◌+◌, ◌-◌, ◌%◌, ◌^◌, ◌<◌, ◌≡◌, refl, ◌∙◌, lt→ltb, arith}
use ndt.Base.{Bool, true, false, not, ◌&&◌, ◌==◌, bit, List, ◌∷◌, ◌++◌, All, Bool-cases, inl, inr}
use ndt.Base.{ℤ, eqb, count_if_middle, All-middle}
use ndt.Miniublk.Abi.{Abi, IsLinux}
use ndt.Miniublk.UserData.{user_data_to_tag, is_target_io}
use ndt.Miniublk.Types.{Target, loop_tgt, Slot, stale, io_cmd, file_io, UblkQueue, Cqe}
use ndt.Miniublk.Queue.{get_io, set_flags, no_flags, ublk_queue_depth}
use ndt.Miniublk.Queue.Recycling.{ublk_complete_io-Recycled}
use ndt.Miniublk.Ledger.{Ledger, IsFilled, nobody, holding, slot_user_data, is_cmd, is_file, busy}
use ndt.Miniublk.Ledger.Handback.{Recycled-Ledger, freed-Ledger}
use ndt.Miniublk.Engine.Serving.{Balances, queue_io-Balances}
use ndt.Miniublk.Engine.{
  queue_io, note_stop, finish_command, handle_command, ublk_handle_cqe, ublk_loop_io_done,
  ublksrv_handle_tgt_cqe,
}

module _ (abi : Abi) (depth : ℕ) (tgt : Target) (q : UblkQueue) (pre : List Slot) (s : Slot)
    (post : List Slot) (books : Ledger abi depth tgt nobody 0 q (pre ++ s ∷ post)) where
  -- The completed entry comes off the books, and its tag is in hand.
  one_in_hand :
      (t : ℕ)
      → t < depth
      → busy t q.sq
          + busy t (pre ++ post)
          + bit ((q.ios t).flags.io_free)
          + holding (user_data_to_tag (slot_user_data s)) t
        ≡ 1
  one_in_hand t h = ground (
    arith,
    books.one t h,
    count_if_middle (λ x. user_data_to_tag (slot_user_data x) == t) pre s post,
  )

  filled : IsFilled depth tgt s × All (IsFilled depth tgt) (pre ++ post)
  filled = All-middle (IsFilled depth tgt) pre s post books.out_filled

  cmd_in_hand :
      is_cmd s ≡ true
      → is_file s ≡ false
      → Ledger abi depth tgt
          (holding (user_data_to_tag (slot_user_data s)))
          0
          (record q { cmd_inflight = (q.cmd_inflight + 2 ^ 32 - 1) % 2 ^ 32 })
          (pre ++ post)
  cmd_in_hand c f = record {
    fits = books.fits;
    depth_fixed = books.depth_fixed;
    tgt_fixed = books.tgt_fixed;
    sq_filled = books.sq_filled;
    out_filled = filled.1;
    one = λ t h. one_in_hand t h;
    cmds_counted = ground (arith, books.cmds_counted, count_if_middle is_cmd pre s post);
    files_counted = ground (arith, books.files_counted, count_if_middle is_file pre s post);
    servable = books.servable;
  }

  file_in_hand :
      is_cmd s ≡ false
      → is_file s ≡ true
      → Ledger abi depth tgt (holding (user_data_to_tag (slot_user_data s))) 1 q (pre ++ post)
  file_in_hand c f = record {
    fits = books.fits;
    depth_fixed = books.depth_fixed;
    tgt_fixed = books.tgt_fixed;
    sq_filled = books.sq_filled;
    out_filled = filled.1;
    one = λ t h. one_in_hand t h;
    cmds_counted = ground (arith, books.cmds_counted, count_if_middle is_cmd pre s post);
    files_counted = ground (arith, books.files_counted, count_if_middle is_file pre s post);
    servable = books.servable;
  }

-- The file I/O that a completion ends is written off.
written_off :
    (abi : Abi) (depth : ℕ) (tgt : Target) (q : UblkQueue) (out : List Slot)
    → Ledger abi depth tgt nobody 1 q out
    → Ledger abi depth tgt nobody 0
        (record q { io_inflight = (q.io_inflight + 2 ^ 32 - 1) % 2 ^ 32 })
        out
written_off abi depth tgt q out l = record {
  fits = l.fits;
  depth_fixed = l.depth_fixed;
  tgt_fixed = l.tgt_fixed;
  sq_filled = l.sq_filled;
  out_filled = l.out_filled;
  one = l.one;
  cmds_counted = l.cmds_counted;
  files_counted = omega (arith, l.files_counted);
  servable = l.servable;
}

module _ (abi : Abi) (has_room : List Slot → Bool) (linux : IsLinux abi) (depth : ℕ) (tgt : Target)
    (tag : ℕ) (out : List Slot) (below : tag < depth) where
  note_stop-Ledger :
      (q : UblkQueue) (fetch : Bool)
      → Ledger abi depth tgt (holding tag) 0 q out
      → Ledger abi depth tgt (holding tag) 0 (note_stop abi has_room q tag fetch) out
  unfolding note_stop set_flags
  note_stop-Ledger q true l = l
  note_stop-Ledger q false l = record {
    fits = l.fits;
    depth_fixed = l.depth_fixed;
    tgt_fixed = l.tgt_fixed;
    sq_filled = l.sq_filled;
    out_filled = l.out_filled;
    one = λ t h. ground (arith, l.one t h);
    cmds_counted = l.cmds_counted;
    files_counted = l.files_counted;
    servable = l.servable;
  }

  finish_command-Balances :
      (q : UblkQueue) (res : ℤ)
      → Ledger abi depth tgt (holding tag) 0 q out
      → Balances abi depth tgt 0 out (finish_command abi has_room q tag res)
  finish_command-Balances q res l = elim (Bool-cases (eqb res abi.io_res_ok)) [
    | inl served ↦
        rw (passed served) (queue_io-Balances abi has_room linux depth tag 0 q out below tgt l)
    | inr not_served ↦ (
      set_flags q tag (record no_flags { io_free = true }),
      unfold finish_command in (rw not_served),
      freed-Ledger abi depth tgt 0 tag q out l below,
    )
  ]
    where
      passed :
          eqb res abi.io_res_ok ≡ true
          → finish_command abi has_room q tag res ≡ queue_io abi has_room q tag
      passed e = unfold finish_command in ground (arith, l.depth_fixed)

  handle_command-Balances :
      (q : UblkQueue) (res : ℤ)
      → Ledger abi depth tgt
          (holding tag)
          0
          (record q { cmd_inflight = (q.cmd_inflight + 2 ^ 32 - 1) % 2 ^ 32 })
          out
      → Balances abi depth tgt 0 out (handle_command abi has_room q tag res)
  handle_command-Balances q res l =
      let fetch : Bool = not (eqb res abi.io_res_abort) && not q.state.stopping in
      rw reads (finish_command-Balances _ res (note_stop-Ledger _ fetch l))
    where
      reads :
          handle_command abi has_room q tag res
          ≡ finish_command abi has_room
              (note_stop abi has_room
                (record q { cmd_inflight = (q.cmd_inflight + 2 ^ 32 - 1) % 2 ^ 32 })
                tag
                (not (eqb res abi.io_res_abort) && not q.state.stopping))
              tag
              res
      reads =
          unfold handle_command get_io in (rw (lt→ltb tag ublk_queue_depth (omega (arith, l.fits))))

  ublk_loop_io_done-Balances :
      (q : UblkQueue) (cqe : Cqe)
      → user_data_to_tag cqe.user_data ≡ tag
      → Ledger abi depth tgt (holding tag) 1 q out
      → Balances abi depth tgt 0 out (ublk_loop_io_done abi has_room q tag cqe)
  ublk_loop_io_done-Balances q cqe e l =
      let r = ublk_complete_io-Recycled abi has_room linux q tag cqe.res (omega (arith, l.fits)) in
      (
        record (r.after) { io_inflight = ((r.after).io_inflight + 2 ^ 32 - 1) % 2 ^ 32 },
        unfold ublk_loop_io_done in ground (arith, e, r.returns),
        written_off abi depth tgt r.after out
            (Recycled-Ledger abi depth tgt 1 tag q out l below has_room linux _ r),
      )

-- A completion of an entry that the queue submitted is handled without a failed assertion or a wild
-- access, for whichever result, and the books are balanced without that entry.
pub ublk_handle_cqe-Balances :
    (abi : Abi) (has_room : List Slot → Bool) (linux : IsLinux abi) (depth : ℕ) (tgt : Target)
    (q : UblkQueue) (pre : List Slot) (s : Slot) (post : List Slot) (cqe : Cqe)
    → cqe.user_data ≡ slot_user_data s
    → Ledger abi depth tgt nobody 0 q (pre ++ s ∷ post)
    → Balances abi depth tgt 0 (pre ++ post) (ublk_handle_cqe abi has_room q cqe)
ublk_handle_cqe-Balances abi has_room linux depth tgt q pre stale post cqe e books =
    absurd ((filled abi depth tgt q pre stale post books).0)
ublk_handle_cqe-Balances abi has_room linux depth tgt q pre (io_cmd c) post cqe e books =
    let f = filled abi depth tgt q pre (io_cmd c) post books in
    rw (command q cqe (rw e (f.0.1))) (
      handle_command-Balances abi has_room linux depth tgt _ _ (rw e (f.0.0)) q cqe.res
        (rw e (cmd_in_hand abi depth tgt q pre (io_cmd c) post books refl refl)))
  where
    command :
        (q : UblkQueue) (cqe : Cqe)
        → is_target_io cqe.user_data ≡ false
        → ublk_handle_cqe abi has_room q cqe
          ≡ handle_command abi has_room q (user_data_to_tag cqe.user_data) cqe.res
    command q cqe h = unfold ublk_handle_cqe in (rw h)
ublk_handle_cqe-Balances abi has_room linux depth tgt q pre (file_io f) post cqe e books =
    let own = filled abi depth tgt q pre (file_io f) post books in
    rw (target q cqe (rw e (own.0.1)) (books.tgt_fixed ∙ own.0.2)) (
      ublk_loop_io_done-Balances abi has_room linux depth tgt _ _ (rw e (own.0.0)) q cqe refl
        (rw e (file_in_hand abi depth tgt q pre (file_io f) post books refl refl)))
  where
    target :
        (q : UblkQueue) (cqe : Cqe)
        → is_target_io cqe.user_data ≡ true
        → q.tgt ≡ loop_tgt
        → ublk_handle_cqe abi has_room q cqe
          ≡ ublk_loop_io_done abi has_room q (user_data_to_tag cqe.user_data) cqe
    target q cqe h t = unfold ublk_handle_cqe ublksrv_handle_tgt_cqe in (rw h (ground arith))
