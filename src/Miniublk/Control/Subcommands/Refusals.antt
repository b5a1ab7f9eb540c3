-- ===== src/Miniublk/Control/Subcommands/Refusals.antt =====
-- The ways in which subcommands end before a device is made, and one in which they crash.
use ndt.Base.{◌<◌, ◌≡◌, ◌⊎◌, arith, ℤ, pos, neg, is_neg, eqb, true, false}
use ndt.Base.{List, ◌∷◌, ltb, ◌||◌}
use ndt.Miniublk.Abi.{Abi}
use ndt.Miniublk.Types.{Target}
use ndt.Miniublk.Control.Monad.{
  returned, null_access, Trace, calloc_dev, open_ctrl, setup_ctrl_ring, free_dev, ◌>>=◌, pure,
  null_deref, call,
}
use ndt.Miniublk.Control.Commands.{Host, ublk_ctrl_init, ublk_ctrl_deinit}
use ndt.Miniublk.Control.Targets.{Backing, entry, ublk_find_tgt}
use ndt.Miniublk.Control.Subcommands.{
  Opt, default_settings, settings_from, ublk_max_queues, cmd_dev_add, __cmd_dev_del,
}

module _ (abi : Abi) (host : Host) (backing : Backing) where
  -- With a known target, more than four queues or a depth over 128, whichever options say so last,
  -- `add` returns -EINVAL and has not called the system at all.
  cmd_dev_add_refuses :
      (opts : List Opt) (tgt : Target) (t : Trace)
      → let s = settings_from default_settings opts in
        ublk_find_tgt s.tgt_type ≡ entry tgt
        → (ublk_max_queues < s.nr_queues) ⊎ (128 < s.queue_depth)
        → cmd_dev_add abi host backing opts t ≡ returned (neg abi.einval) t
  unfolding pure cmd_dev_add
  cmd_dev_add_refuses opts tgt t known h =
      let s = settings_from default_settings opts in
      let over : (ltb ublk_max_queues s.nr_queues || ltb 128 s.queue_depth) ≡ true = ground arith in
      rw (known, over, cmd_dev_add)

  -- When the ring of the control device cannot be set up, after the memory was given and the device
  -- opened, `del` of one device frees the memory and then goes through the null pointer.
  __cmd_dev_del_null :
      (id : ℤ) (t : Trace)
      → eqb (host.answers t calloc_dev) (pos 0) ≡ false
      → is_neg (host.answers (calloc_dev ∷ t) open_ctrl) ≡ false
      → is_neg (host.answers (open_ctrl ∷ calloc_dev ∷ t) setup_ctrl_ring) ≡ true
      → __cmd_dev_del abi host backing id t
        ≡ null_access (free_dev ∷ setup_ctrl_ring ∷ open_ctrl ∷ calloc_dev ∷ t)
  unfolding __cmd_dev_del ublk_ctrl_init ublk_ctrl_deinit ◌>>=◌ call pure null_deref
  __cmd_dev_del_null id t memory opened failed =
      rw
        (memory, opened, failed, __cmd_dev_del, ublk_ctrl_init, ublk_ctrl_deinit, ◌>>=◌, call, pure)
