-- ===== src/Miniublk/Setup/Release/Balance.antt =====
-- A queue gives back all that it takes.
use ndt.Base.{ℕ, ◌<◌, ◌≡◌, ltb, if◌then◌else◌}
use ndt.Base.{some, List, [], ◌∷◌, ◌++◌}
use ndt.Miniublk.Abi.{Abi}
use ndt.Miniublk.Types.{Target, UblkQueue}
use ndt.Miniublk.Setup.{QueueHost, ublk_queue_init}
use ndt.Miniublk.Setup.Release.{
  Part, commands, ring, Effect, took, gave, mapped, Kept, allocated, ublk_queue_deinit,
}
use ndt.Miniublk.Setup.Release.Counting.{times_taken, times_given}

module _ (size : ℕ → ℕ) (abi : Abi) (q : UblkQueue) (depth : ℕ) (tgt : Target) (host : QueueHost)
    (ring_fd : ℕ) where
  abbrev made : UblkQueue
  made = (ublk_queue_init abi q depth tgt host).1

  abbrev buffers : List Effect
  buffers = took (commands (size depth)) ∷ allocated host.memalign depth 0

  module _ (r : Part) (no_null : (i a : ℕ) → host.memalign i ≡ some a → 0 < a)
      (unset : (t : ℕ) → (q.ios t).buf_addr ≡ 0) (ring_open : 0 < ring_fd) where
    abbrev Balances : List Effect × Kept → Type 0
    Balances t =
        times_given r (t.0 ++ ublk_queue_deinit size t.1 made)
        ≡ times_taken r (t.0 ++ ublk_queue_deinit size t.1 made)

    abbrev close_ring : ℕ → List Effect
    close_ring fd = if ltb 0 fd then gave (ring fd) ∷ [] else []

    abbrev no_ring : Kept
    no_ring = record { io_cmd_buf = mapped; ring_fd = 0 }
