-- ===== src/Miniublk/World/Start.antt =====
-- From the setup of a queue thread to any point of its run.
use ndt.Base.{ℕ, ◌≤◌, ◌<◌, ◌≡◌, sym, ◌∙◌, subst, some-injective, Bool, true, some, List, []}
use ndt.Base.{◌∷◌, ◌++◌, length, pos}
use ndt.Miniublk.Abi.{Abi, IsLinux}
use ndt.Miniublk.Types.{UblksrvIoDesc, Target, Slot, UblkQueue, Cqe}
use ndt.Miniublk.Queue.{ublk_queue_depth, ublk_submit_fetch_commands}
use ndt.Miniublk.Engine.{ublk_handle_cqe}
use ndt.Miniublk.Ledger.{IsServable, slot_user_data}
use ndt.Miniublk.Setup.{QueueHost, ublk_queue_init}
use ndt.Miniublk.Setup.Fresh.{IsFresh, ublk_queue_init-IsFresh}
use ndt.Miniublk.Setup.Fetching.{ublk_submit_fetch_commands_all}
use ndt.Miniublk.World.{World, Reach, Balanced}
use ndt.Miniublk.World.Safety.{Reach-handles}

module _ (abi : Abi) (has_room : List Slot → Bool) (linux : IsLinux abi) where
  -- The world of a thread that has written its first commands has balanced books.
  pub started-Balanced :
      (q q' : UblkQueue)
      → IsFresh abi q
      → ((sq : List Slot) → length sq < q.q_depth → has_room sq ≡ true)
      → ublk_submit_fetch_commands abi has_room q ≡ some q'
      → Balanced abi q.q_depth q.tgt (record { queue = q'; outstanding = [] })
  started-Balanced q q' fresh room e =
      let (q1, k, books, count, owned) =
        ublk_submit_fetch_commands_all abi has_room linux q room fresh in
      subst (λ x. Balanced abi q.q_depth q.tgt (record { queue = x; outstanding = [] }))
        (some-injective _ _ (sym k ∙ e)) books

  -- A queue of at most 128 entries, with no file I/O counted, is set up with success, for a driver
  -- that describes servable requests only and a ring with room for as many entries as the queue is
  -- deep. Then at any point of a run that follows its first commands, the completion of any
  -- outstanding entry is handled without a failed assertion and without a wild access.
  pub started_handles :
      (q0 : UblkQueue) (depth : ℕ) (tgt : Target) (host : QueueHost) (q' : UblkQueue) (w : World)
      → depth ≤ ublk_queue_depth
      → q0.io_inflight ≡ 0
      → ((buf : ℕ → UblksrvIoDesc) (t : ℕ) → host.mapped ≡ some buf → IsServable abi tgt (buf t))
      → let (ret, q) = ublk_queue_init abi q0 depth tgt host in
        ret ≡ pos 0
        → ((sq : List Slot) → length sq < q.q_depth → has_room sq ≡ true)
        → ublk_submit_fetch_commands abi has_room q ≡ some q'
        → Reach abi has_room (record { queue = q'; outstanding = [] }) w
        → (pre : List Slot) (s : Slot) (post : List Slot) (cqe : Cqe)
        → w.outstanding ≡ pre ++ s ∷ post
        → cqe.user_data ≡ slot_user_data s
        → (after : UblkQueue) × (ublk_handle_cqe abi has_room w.queue cqe ≡ some after)
  started_handles q0 depth tgt host q' w deep quiet serves ok room sent run pre s post cqe e u =
      let q = (ublk_queue_init abi q0 depth tgt host).1 in
      let fresh =
        ublk_queue_init-IsFresh abi q0 depth tgt host linux.enomem_pos deep quiet serves ok in
      Reach-handles abi has_room linux q.q_depth q.tgt (started-Balanced q q' fresh room sent) run
        pre s post cqe e u
