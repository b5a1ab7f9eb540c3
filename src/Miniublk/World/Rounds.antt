-- ===== src/Miniublk/World/Rounds.antt =====
-- Rounds of the thread's loop, for completions that belong to entries it has submitted.
use ndt.Base.{ℕ, ◌≡◌, refl, subst, arith, Bool, false, if◌then◌else◌, Bool-cases, inl, inr}
use ndt.Base.{List, [], ◌∷◌, ◌++◌, length, Option, none, some, ℤ, pos, neg, eqb, ◌&&◌, ◌==◌}
use ndt.Miniublk.Abi.{Abi, IsLinux}
use ndt.Miniublk.Types.{Target, Slot, UblkQueue, Cqe, Wakeup, QueueState}
use ndt.Miniublk.Queue.{
  ublk_queue_is_idle, ublk_queue_is_done, ublk_queue_idle_enter, ublk_queue_idle_exit,
}
use ndt.Miniublk.Ledger.{Ledger, nobody, slot_user_data}
use ndt.Miniublk.Engine.{
  ublk_reap_events_uring, process_io_body, ublk_process_io, ublksrv_io_idle_secs,
}
use ndt.Miniublk.Engine.Handling.{ublk_handle_cqe-Balances}
use ndt.Miniublk.World.{World, Balanced}
use ndt.Miniublk.World.Safety.{take-Balanced}

-- The completions end entries of `out` one after another, and leave `out'`.
pub data Arrive : List Slot → List Cqe → List Slot → Type 0 where
  none_left : (out : List Slot) → Arrive out [] out
  one_more :
      (out pre : List Slot) (s : Slot) (post : List Slot) (cqe : Cqe) (cqes : List Cqe)
      (out' : List Slot)
      → out ≡ pre ++ s ∷ post
      → cqe.user_data ≡ slot_user_data s
      → Arrive (pre ++ post) cqes out'
      → Arrive out (cqe ∷ cqes) out'

module _ (abi : Abi) (has_room : List Slot → Bool) (linux : IsLinux abi) (depth : ℕ)
    (tgt : Target) where
  -- What a round returns: the number of completions, and balanced books.
  abbrev pub Reaped : List Slot → ℕ → Option (ℕ × UblkQueue) → Type 0
  Reaped out n r = (q : UblkQueue) × (r ≡ some (n, q)) × Ledger abi depth tgt nobody 0 q out

  ublk_reap_events_uring-Reaped :
      (q : UblkQueue) (out : List Slot) (cqes : List Cqe) (out' : List Slot)
      → Arrive out cqes out'
      → Ledger abi depth tgt nobody 0 q out
      → Reaped out' (length cqes) (ublk_reap_events_uring abi has_room q cqes)
  unfolding ublk_reap_events_uring
  ublk_reap_events_uring-Reaped q out [] out' (none_left o) b = (q, refl, b)
  ublk_reap_events_uring-Reaped q out (cqe ∷ cqes) out' (one_more o pre s post c cs o' e u rest) b =
      let (q1, k, b1) =
        ublk_handle_cqe-Balances abi has_room linux depth tgt q pre s post cqe u
          (subst (λ o. Ledger abi depth tgt nobody 0 q o) e b) in
      let (q2, k2, b2) = ublk_reap_events_uring-Reaped q1 (pre ++ post) cqes out' rest b1 in
      (q2, rw k (rw k2 (ground arith)), b2)

  -- Going idle, or waking up, does not touch the books.
  rest-Ledger :
      (q : UblkQueue) (out : List Slot) (st : QueueState)
      → Ledger abi depth tgt nobody 0 q out
      → Ledger abi depth tgt nobody 0 (record q { state = st }) out
  rest-Ledger q out st b = record {
    fits = b.fits;
    depth_fixed = b.depth_fixed;
    tgt_fixed = b.tgt_fixed;
    sq_filled = b.sq_filled;
    out_filled = b.out_filled;
    one = b.one;
    cmds_counted = b.cmds_counted;
    files_counted = b.files_counted;
    servable = b.servable;
  }

  -- The end of a round: the thread sleeps, wakes or stops, and the count is returned.
  settled : UblkQueue → ℤ → ℕ → UblkQueue
  settled q ret n =
      if q.state.stopping
      then q
      else (if eqb ret (neg abi.etime) && (n == 0) && ublk_queue_is_idle q
          then ublk_queue_idle_enter q
          else ublk_queue_idle_exit q)

  settled-Ledger :
      (q : UblkQueue) (ret : ℤ) (n : ℕ) (out : List Slot)
      → Ledger abi depth tgt nobody 0 q out
      → Ledger abi depth tgt nobody 0 (settled q ret n) out
  unfolding settled ublk_queue_idle_enter ublk_queue_idle_exit
  settled-Ledger q ret n out b = elim (Bool-cases (q.state.stopping)) [
    | inl s ↦ simp s b
    | inr s ↦ elim (Bool-cases (eqb ret (neg abi.etime) && (n == 0) && ublk_queue_is_idle q)) [
      | inl sleep ↦ elim (Bool-cases (q.state.idle)) [
        | inl i ↦ simp (s, sleep, i) b
        | inr i ↦ simp (s, sleep, i) (rest-Ledger q out _ b)
      ]
      | inr wake ↦ elim (Bool-cases (q.state.idle)) [
        | inl i ↦ simp (s, wake, i) (rest-Ledger q out _ b)
        | inr i ↦ simp (s, wake, i) b
      ]
    ]
  ]

  process_io_body-eq :
      (q : UblkQueue) (w : Wakeup) (n : ℕ) (q' : UblkQueue)
      → ublk_reap_events_uring abi has_room (record q { sq = w.kept }) w.cqes ≡ some (n, q')
      → process_io_body abi has_room q w ≡ some (pos n, settled q' w.ret n)
  unfolding process_io_body settled
  process_io_body-eq q w n q' e = rw e

  -- A round of a queue that is not done: if the kernel keeps the newest entries and takes the others,
  -- and completes entries that it has, then the round returns the number of completions, and the
  -- books of the queue and of what is left outstanding are balanced.
  pub ublk_process_io_serves :
      (w : World) (wait : Option ℕ → Wakeup) (wake : Wakeup) (sent out : List Slot)
      → Balanced abi depth tgt w
      → ublk_queue_is_done w.queue ≡ false
      → wait (if (w.queue).state.idle then none else some ublksrv_io_idle_secs) ≡ wake
      → (w.queue).sq ≡ wake.kept ++ sent
      → Arrive (sent ++ w.outstanding) wake.cqes out
      → (q : UblkQueue) × (ublk_process_io abi has_room w.queue wait
          ≡ some (pos (length wake.cqes), q))
        × Balanced abi depth tgt (record { queue = q; outstanding = out })
  ublk_process_io_serves w wait wake sent out b running answer e arrive =
      let (q1, k, b1) =
        ublk_reap_events_uring-Reaped (record (w.queue) { sq = wake.kept }) _ wake.cqes out arrive
          (take-Balanced abi has_room linux depth tgt w wake.kept sent e b) in
      (
        settled q1 wake.ret (length wake.cqes),
        unfold ublk_process_io in (rw running (rw answer (process_io_body-eq w.queue wake _ q1 k))),
        settled-Ledger q1 wake.ret _ out b1,
      )
