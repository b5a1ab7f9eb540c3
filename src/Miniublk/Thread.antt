-- ===== src/Miniublk/Thread.antt =====
-- `ublk_io_handler_fn`: a queue's thread from its setup to its end.
use ndt.Base.{ℕ, pos, is_neg, eqb, Bool, true, false, not, if◌then◌else◌}
use ndt.Base.{Option, some, List, [], ◌∷◌}
use ndt.Miniublk.Abi.{Abi}
use ndt.Miniublk.Types.{Target, Slot, UblkQueue, Wakeup}
use ndt.Miniublk.Queue.{◌>>=◌, ublk_submit_fetch_commands}
use ndt.Miniublk.Setup.{QueueHost, ublk_queue_init}
use ndt.Miniublk.Engine.{ublk_process_io}

module _ (abi : Abi) (has_room : List Slot → Bool) where
  -- The loop of `ublk_io_handler_fn`, for the given waits; the flag says whether it has ended.
  unfoldable pub serve : UblkQueue → List (Option ℕ → Wakeup) → Option (Bool × UblkQueue)
  serve q [] = some (false, q)
  serve q (w ∷ ws) = do
    r ← ublk_process_io abi has_room q w
    elim (is_neg (r.0)) [ true ↦ some (true, r.1) | false ↦ serve (r.1) ws ]

  -- Setup, the first commands, and the loop; a thread whose setup fails ends at once. What
  -- `ublk_queue_deinit` gives back at the end is no part of the queue's state here.
  unfoldable pub ublk_io_handler_fn :
      UblkQueue → ℕ → Target → QueueHost → List (Option ℕ → Wakeup) → Option (Bool × UblkQueue)
  ublk_io_handler_fn q depth tgt host ws =
      let (ret, made) = ublk_queue_init abi q depth tgt host in
      if not (eqb ret (pos 0))
      then some (true, made)
      else (do q' ← ublk_submit_fetch_commands abi has_room made; serve q' ws)
