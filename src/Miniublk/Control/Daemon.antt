-- ===== src/Miniublk/Control/Daemon.antt =====
-- The daemon that serves a device, and waiting for its end.
use ndt.Base.{ℕ, zero, suc, ◌+◌, ℤ, pos, negsuc, neg, is_neg, eqb}
use ndt.Base.{Bool, true, false, Option}
use Prim.Native.String.{String}
use ndt.Miniublk.Abi.{Abi}
use ndt.Miniublk.Types.{Target, null_tgt, loop_tgt}
use ndt.Miniublk.Control.Monad.{
  daemonize, getpid, open_cdev, close_cdev, create_thread, join_thread, kill_probe, usleep, M,
  ◌>>=◌, ◌>>◌, pure, exit, call,
}
use ndt.Miniublk.Control.Commands.{
  UblkDev, Host, ublk_ctrl_get_info, ublk_ctrl_get_params, ublk_ctrl_set_params,
  ublk_ctrl_start_dev, ublk_ctrl_end_user_recover,
}
use ndt.Miniublk.Control.Targets.{
  Backing, ublk_null_tgt_init, ublk_null_tgt_recover, ublk_loop_tgt_init, ublk_loop_tgt_recover,
  ublk_loop_tgt_deinit,
}

module _ (abi : Abi) (host : Host) (backing : Backing) where
  unfoldable pub init_tgt : UblkDev → Option String → Target → M (ℤ × UblkDev)
  init_tgt dev f null_tgt = pure (ublk_null_tgt_init abi host dev)
  init_tgt dev f loop_tgt = ublk_loop_tgt_init abi host dev backing f

  unfoldable pub recover_tgt : UblkDev → Option String → Target → M (ℤ × UblkDev)
  recover_tgt dev f null_tgt = pure (ublk_null_tgt_recover abi host dev)
  recover_tgt dev f loop_tgt = ublk_loop_tgt_recover abi host dev backing f

  unfoldable pub deinit_tgt : Target → M (Unit {0})
  deinit_tgt null_tgt = pure tt
  deinit_tgt loop_tgt = ublk_loop_tgt_deinit abi host

  -- A device whose state is quiesced is recovered, any other is set up.
  unfoldable pub ublk_dev_prep : UblkDev → Option String → Target → M (ℤ × UblkDev)
  ublk_dev_prep dev f tgt = do
    fd ← call host.answers (open_cdev (dev.dev_info.dev_id))
    elim (is_neg fd) [
      | true ↦ do call host.answers close_cdev; pure (neg abi.ebadf, dev)
      | false ↦ elim (dev.dev_info.quiesced) [
        | true ↦ recover_tgt dev f tgt
        | false ↦ init_tgt dev f tgt
      ]
    ]

  unfoldable pub ublk_dev_unprep : Target → M (Unit {0})
  ublk_dev_unprep tgt = do deinit_tgt tgt; call host.answers close_cdev; pure tt

  -- The loops over the queues' threads.
  unfoldable pub create_threads : ℕ → ℕ → M (Unit {0})
  create_threads zero i = pure tt
  create_threads (suc left) i = do call host.answers (create_thread i); create_threads left (i + 1)

  unfoldable pub join_threads : ℕ → ℕ → M (Unit {0})
  join_threads zero i = pure tt
  join_threads (suc left) i = do call host.answers (join_thread i); join_threads left (i + 1)

  -- `ublk_ctrl_dump` asks for the parameters and prints.
  unfoldable pub ublk_ctrl_dump : UblkDev → M (Unit {0})
  ublk_ctrl_dump dev = do ublk_ctrl_get_params abi host dev; pure tt

  -- Starting, or ending the recovery of, the device whose threads run.
  unfoldable pub go_live : UblkDev → Bool → M (ℤ × UblkDev)
  go_live dev true = do pid ← call host.answers getpid; ublk_ctrl_end_user_recover abi host dev pid
  go_live dev false = do
    ublk_ctrl_set_params abi host dev
    pid ← call host.answers getpid
    ublk_ctrl_start_dev abi host dev pid

  -- From `ublk_dev_prep` on.
  unfoldable pub serve_device : UblkDev → Option String → Target → Bool → M (ℤ × UblkDev)
  serve_device dev f tgt is_recovery = do
    prepared ← ublk_dev_prep dev f tgt
    elim (eqb (prepared.0) (pos 0)) [
      | false ↦ pure prepared
      | true ↦ do
        create_threads ((prepared.1).dev_info.nr_hw_queues) 0
        live ← go_live (prepared.1) is_recovery
        elim (is_neg (live.0)) [
          | true ↦ do ublk_dev_unprep tgt; pure live
          | false ↦ do
            info ← ublk_ctrl_get_info abi host (live.1)
            ublk_ctrl_dump (info.1)
            join_threads ((info.1).dev_info.nr_hw_queues) 0
            ublk_dev_unprep tgt
            pure (live.0, info.1)
        ]
    ]

  -- In `daemon` the calling process ends with status 0, for which the answer 1 stands, and the program
  -- goes on in a new process; where it cannot, it goes on too.
  unfoldable pub ublk_start_daemon : UblkDev → Option String → Target → Bool → M (ℤ × UblkDev)
  ublk_start_daemon dev f tgt is_recovery = do
    ended ← call host.answers daemonize
    elim (eqb ended (pos 1)) [ true ↦ exit (pos 0) | false ↦ serve_device dev f tgt is_recovery ]

  -- `kill(pid, 0)` until it fails, at most six times.
  unfoldable pub probe_daemon : ℕ → ℤ → M ℤ
  probe_daemon zero pid = pure (negsuc 0)
  probe_daemon (suc left) pid = do
    ret ← call host.answers (kill_probe pid)
    elim (eqb ret (pos 0)) [
      | false ↦ pure (pos 0)
      | true ↦ do call host.answers usleep; probe_daemon left pid
    ]

  unfoldable pub ublk_stop_io_daemon : UblkDev → M ℤ
  ublk_stop_io_daemon dev = elim (eqb (dev.dev_info.ublksrv_pid) (negsuc 0)) [
    | true ↦ pure (pos 0)
    | false ↦ probe_daemon 6 (dev.dev_info.ublksrv_pid)
  ]
