-- ===== src/Miniublk/Engine/Serving.antt =====
-- The targets serve a request that the queue holds: none fails, and the books stay balanced.
use ndt.Base.{ℕ, zero, suc, ◌+◌, ◌%◌, ◌^◌, ◌<◌, ◌≡◌, refl, ◌⊎◌, inl, inr, arith}
use ndt.Base.{Bool, true, false, Option, some, List, ◌∷◌, Bool-cases}
use ndt.Base.{ℤ, pos, neg, int_of_u32}
use ndt.Miniublk.Abi.{Abi, IsLinux}
use ndt.Miniublk.UserData.{build_user_data, build_user_data-Decodes}
use ndt.Miniublk.Types.{
  Target, null_tgt, loop_tgt, FileOp, sync_file_range, read, write, file_io, Slot, UblkQueue,
}
use ndt.Miniublk.Queue.{ublk_complete_io}
use ndt.Miniublk.Queue.Recycling.{ublk_complete_io-Recycled}
use ndt.Miniublk.Ledger.{Ledger, nobody, holding}
use ndt.Miniublk.Ledger.Handback.{Recycled-Ledger, filed-Ledger}
use ndt.Miniublk.Engine.{
  ublk_null_queue_io, byte_count, file_op_for, file_io_for, loop_queue_tgt_io, ublk_loop_queue_io,
  queue_io,
}

-- The call returns a queue whose books are balanced, with the `extra` file I/O still to write off.
abbrev pub Balances : Abi → ℕ → Target → ℕ → List Slot → Option UblkQueue → Type 0
Balances abi depth tgt extra out r =
    (q : UblkQueue) × (r ≡ some q) × Ledger abi depth tgt nobody extra q out

module _ (abi : Abi) (has_room : List Slot → Bool) (linux : IsLinux abi) where
  -- The operations that the loop target passes to the backing file.
  servable_op :
      (op : ℕ)
      → (op ≡ abi.op_flush) ⊎ (op ≡ abi.op_read) ⊎ (op ≡ abi.op_write)
      → (f : FileOp) × (op < 2 ^ 8) × (file_op_for abi has_room op ≡ inl f)
  unfolding file_op_for
  servable_op op (inl e) = (sync_file_range, ground (arith, linux.op_flush_fits), ground arith)
  servable_op op (inr (inl e)) = (
    read,
    ground (arith, linux.op_read_fits),
    ground (arith, linux.read_flush_differ, linux.zeroes_read_differ, linux.discard_read_differ),
  )
  servable_op op (inr (inr e)) = (
    write,
    ground (arith, linux.op_write_fits),
    ground (
      arith, linux.write_flush_differ, linux.zeroes_write_differ, linux.discard_write_differ,
      linux.read_write_differ,
    ),
  )

  module _ (depth : ℕ) (tag : ℕ) (extra : ℕ) (q : UblkQueue) (out : List Slot)
      (below : tag < depth) where
    -- The null target completes the request at once.
    ublk_null_queue_io-Balances :
        (tgt : Target)
        → Ledger abi depth tgt (holding tag) extra q out
        → Balances abi depth tgt extra out (ublk_null_queue_io abi has_room q tag)
    unfolding ublk_null_queue_io
    ublk_null_queue_io-Balances tgt held =
        let r =
          ublk_complete_io-Recycled abi has_room linux q tag
            (int_of_u32 (byte_count (q.io_cmd_buf tag))) (omega (arith, held.fits)) in
        (
          r.after,
          rw r.returns,
          Recycled-Ledger abi depth tgt extra tag q out held below has_room linux _ r,
        )

    loop_queue_tgt_io_full :
        has_room q.sq ≡ false → loop_queue_tgt_io abi has_room q tag ≡ some (neg abi.enomem, q)
    unfolding loop_queue_tgt_io
    loop_queue_tgt_io_full full = ground arith

    queued : FileOp → ℕ → UblkQueue
    queued f word = record q {
      sq = file_io (file_io_for abi has_room (q.io_cmd_buf tag) f word) ∷ q.sq;
      io_inflight = (q.io_inflight + 1) % 2 ^ 32;
    }

    loop_queue_tgt_io_room :
        (f : FileOp) (word : ℕ)
        → has_room q.sq ≡ true
        → file_op_for abi has_room (q.io_cmd_buf tag).op ≡ inl f
        → build_user_data tag (q.io_cmd_buf tag).op 0 1 ≡ some word
        → loop_queue_tgt_io abi has_room q tag ≡ some (pos 1, queued f word)
    unfolding loop_queue_tgt_io queued
    loop_queue_tgt_io_room f word room e b = ground arith

    failed_request :
        (e : ℕ) (q' : UblkQueue) (ret : ℤ)
        → 0 < e
        → loop_queue_tgt_io abi has_room q tag ≡ some (neg e, q)
        → ublk_complete_io abi has_room q tag (neg e) ≡ some (ret, q')
        → ublk_loop_queue_io abi has_room q tag ≡ some q'
    unfolding ublk_loop_queue_io
    failed_request (suc e) q' ret h t c = rw t (rw c)
    failed_request zero q' ret h t c = absurd (omega arith)

    -- Without an entry the loop target completes the request with an error; with one the tag goes to
    -- the file.
    ublk_loop_queue_io-Balances :
        Ledger abi depth loop_tgt (holding tag) extra q out
        → Balances abi depth loop_tgt extra out (ublk_loop_queue_io abi has_room q tag)
    ublk_loop_queue_io-Balances held = elim (Bool-cases (has_room q.sq)) [
      | inl room ↦
          let (f, fits, e) = servable_op (q.io_cmd_buf tag).op (held.servable tag) in
          let (word, b, d) =
            build_user_data-Decodes tag (q.io_cmd_buf tag).op 0 true (omega (arith, held.fits)) fits
              (omega arith) in
          (
            queued f word,
            unfold ublk_loop_queue_io in (rw (loop_queue_tgt_io_room f word room e b)),
            unfold queued file_io_for in
                filed-Ledger abi depth loop_tgt extra tag q out held below _ refl d.tag_back
                  d.target_back,
          )
      | inr full ↦
          let r =
            ublk_complete_io-Recycled abi has_room linux q tag (neg abi.enomem)
              (omega (arith, held.fits)) in
          (
            r.after,
            failed_request abi.enomem r.after r.ret linux.enomem_pos (loop_queue_tgt_io_full full)
                r.returns,
            Recycled-Ledger abi depth loop_tgt extra tag q out held below has_room linux _ r,
          )
    ]

    queue_io_null :
        q.tgt ≡ null_tgt → queue_io abi has_room q tag ≡ ublk_null_queue_io abi has_room q tag
    unfolding queue_io
    queue_io_null e = ground arith

    queue_io_loop :
        q.tgt ≡ loop_tgt → queue_io abi has_room q tag ≡ ublk_loop_queue_io abi has_room q tag
    unfolding queue_io
    queue_io_loop e = ground arith

    -- Whatever the target, a request in hand is served without a failed assertion or a wild access,
    -- and its tag is handed on.
    pub queue_io-Balances :
        (tgt : Target)
        → Ledger abi depth tgt (holding tag) extra q out
        → Balances abi depth tgt extra out (queue_io abi has_room q tag)
    queue_io-Balances null_tgt held =
        rw (queue_io_null held.tgt_fixed) (ublk_null_queue_io-Balances null_tgt held)
    queue_io-Balances loop_tgt held =
        rw (queue_io_loop held.tgt_fixed) (ublk_loop_queue_io-Balances held)
