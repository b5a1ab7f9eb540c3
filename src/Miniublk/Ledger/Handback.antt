-- ===== src/Miniublk/Ledger/Handback.antt =====
-- A handler that has a tag in hand gives it back: to the driver, to the free ios, or to a file I/O.
use ndt.Base.{ℕ, ◌+◌, ◌%◌, ◌^◌, ◌<◌, ◌≡◌, inl, inr, arith}
use ndt.Base.{Bool, true, Option, List, ◌∷◌}
use ndt.Base.{ℤ}
use ndt.Miniublk.Abi.{Abi, IsLinux}
use ndt.Miniublk.UserData.{user_data_to_tag, is_target_io}
use ndt.Miniublk.Types.{Target, Slot, UblkQueue, FileIo, file_io, loop_tgt}
use ndt.Miniublk.Queue.{set_flags, no_flags}
use ndt.Miniublk.Queue.Recycling.{SameBut, Issued, Blocked, Recycled}
use ndt.Miniublk.Ledger.{Ledger, nobody, holding}

module _ (abi : Abi) (depth : ℕ) (tgt : Target) (extra tag : ℕ) (q : UblkQueue) (out : List Slot)
    (held : Ledger abi depth tgt (holding tag) extra q out) (below : tag < depth) where
  -- The command that was queued takes the tag.
  Issued-Ledger :
      (op : ℕ) (result : Option ℤ) (q' : UblkQueue)
      → SameBut tag q q'
      → Issued op result tag q q'
      → Ledger abi depth tgt nobody extra q' out
  Issued-Ledger op result q' same i = record {
    fits = held.fits;
    depth_fixed = ground (arith, held.depth_fixed, same.same_depth);
    tgt_fixed = ground (arith, held.tgt_fixed, same.same_tgt);
    sq_filled =
        simp i.queued ((ground (arith, i.decodes.tag_back), i.decodes.target_back), held.sq_filled);
    out_filled = held.out_filled;
    one = λ t h.
        simp i.queued (ground (arith, held.one t h, same.others t, i.decodes.tag_back, i.owned));
    cmds_counted = simp i.queued (omega (arith, held.cmds_counted, i.counted));
    files_counted = simp i.queued (omega (arith, held.files_counted, same.same_io_inflight));
    servable = λ t. rw same.same_buf (held.servable t);
  }

  -- Without room the tag is free again.
  Blocked-Ledger :
      (q' : UblkQueue)
      → SameBut tag q q'
      → Blocked tag q q'
      → Ledger abi depth tgt nobody extra q' out
  Blocked-Ledger q' same b = record {
    fits = held.fits;
    depth_fixed = ground (arith, held.depth_fixed, same.same_depth);
    tgt_fixed = ground (arith, held.tgt_fixed, same.same_tgt);
    sq_filled = rw b.nothing_queued held.sq_filled;
    out_filled = held.out_filled;
    one = λ t h. simp b.nothing_queued (ground (arith, held.one t h, same.others t, b.still_free));
    cmds_counted = simp b.nothing_queued (omega (arith, held.cmds_counted, b.not_counted));
    files_counted =
        simp b.nothing_queued (omega (arith, held.files_counted, same.same_io_inflight));
    servable = λ t. rw same.same_buf (held.servable t);
  }

  -- Completing the request hands the tag back, with or without room.
  pub Recycled-Ledger :
      (has_room : List Slot → Bool) (linux : IsLinux abi) (res : ℤ)
      (r : Recycled abi has_room linux tag res q)
      → Ledger abi depth tgt nobody extra r.after out
  Recycled-Ledger has_room linux res r = elim r.outcome [
    | inl (room, e, i) ↦ Issued-Ledger _ _ r.after r.same i
    | inr (full, e, b) ↦ Blocked-Ledger r.after r.same b
  ]

  -- Marking the io free and nothing else ends the driver's part in it.
  pub freed-Ledger :
      Ledger abi depth tgt nobody extra (set_flags q tag (record no_flags { io_free = true })) out
  unfolding set_flags
  freed-Ledger = record {
    fits = held.fits;
    depth_fixed = held.depth_fixed;
    tgt_fixed = held.tgt_fixed;
    sq_filled = held.sq_filled;
    out_filled = held.out_filled;
    one = λ t h. ground (arith, held.one t h);
    cmds_counted = held.cmds_counted;
    files_counted = held.files_counted;
    servable = held.servable;
  }

  -- An I/O on the backing file takes the tag.
  pub filed-Ledger :
      (f : FileIo)
      → tgt ≡ loop_tgt
      → user_data_to_tag f.user_data ≡ tag
      → is_target_io f.user_data ≡ true
      → Ledger abi depth tgt nobody extra
          (record q { sq = file_io f ∷ q.sq; io_inflight = (q.io_inflight + 1) % 2 ^ 32 })
          out
  filed-Ledger f is_loop for_tag marked = record {
    fits = held.fits;
    depth_fixed = held.depth_fixed;
    tgt_fixed = held.tgt_fixed;
    sq_filled = ((ground arith, marked, is_loop), held.sq_filled);
    out_filled = held.out_filled;
    one = λ t h. ground (arith, held.one t h);
    cmds_counted = omega (arith, held.cmds_counted);
    files_counted = omega (arith, held.files_counted);
    servable = held.servable;
  }
