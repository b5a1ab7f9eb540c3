-- ===== src/Miniublk/Control/Subcommands.antt =====
-- The subcommands add, recover, del and list.
pub mod Protocol
pub mod Refusals
use ndt.Base.{
  ℕ, zero, suc, ◌+◌, ◌%◌, ◌^◌, ◌==◌, ◌⊎◌, inl, inr, ℤ, pos, negsuc, neg, is_neg, eqb, ltb,
}
use ndt.Base.{Bool, true, false, not, ◌&&◌, ◌||◌, if◌then◌else◌, Option, none, some, List, [], ◌∷◌}
use ndt.Base.{u32_of_int}
use Prim.Native.String.{String}
use ndt.Miniublk.Abi.{Abi}
use ndt.Miniublk.Types.{Target, null_tgt, loop_tgt}
use ndt.Miniublk.Control.Monad.{
  Call, daemonize, getpid, open_cdev, close_cdev, create_thread, join_thread, kill_probe, usleep, M,
  ◌>>=◌, ◌>>◌, pure, null_deref, call,
}
use ndt.Miniublk.Control.Commands.{
  UblkDev, UblkParams, DevInfo, Host, ublk_ctrl_init, ublk_ctrl_deinit, ublk_ctrl_get_info,
  ublk_ctrl_get_params, ublk_ctrl_set_params, ublk_ctrl_add_dev, ublk_ctrl_del_dev,
  ublk_ctrl_stop_dev, ublk_ctrl_start_dev, ublk_ctrl_start_user_recover, ublk_ctrl_end_user_recover,
}
use ndt.Miniublk.Control.Targets.{
  Backing, Found, null_pointer, entry, past_the_end, ublk_find_tgt, ublk_null_tgt_init,
  ublk_null_tgt_recover, ublk_loop_tgt_init, ublk_loop_tgt_recover, ublk_loop_tgt_deinit,
}
use ndt.Miniublk.Control.Daemon.{ublk_start_daemon, ublk_stop_io_daemon, ublk_ctrl_dump}

-- The options that the subcommands read, in their order: `getopt_long` is the host's.
pub data Opt : Type 0 where
  number : ℤ → Opt
  type_name : String → Opt
  queues : ℤ → Opt
  depth : ℤ → Opt
  recovery : Opt
  file : String → Opt
  all : Opt
  other_opt : Opt

-- The variables of `cmd_dev_add` and of the targets that the options set.
pub record Settings : Type 0 where
  pub dev_id : ℤ
  pub tgt_type : Option String
  pub nr_queues : ℕ
  pub queue_depth : ℕ
  pub user_recovery : Bool
  pub backing_file : Option String

abbrev pub default_settings : Settings
default_settings = record {
  dev_id = negsuc 0;
  tgt_type = none;
  nr_queues = 2;
  queue_depth = 128;
  user_recovery = false;
  backing_file = none;
}

-- `nr_queues` and `depth` are unsigned.
unfoldable pub set_option : Settings → Opt → Settings
set_option s (number n) = record s { dev_id = n }
set_option s (type_name t) = record s { tgt_type = some t }
set_option s (queues n) = record s { nr_queues = u32_of_int n }
set_option s (depth n) = record s { queue_depth = u32_of_int n }
set_option s recovery = record s { user_recovery = true }
set_option s (file f) = record s { backing_file = some f }
set_option s all = s
set_option s other_opt = s

unfoldable pub settings_from : Settings → List Opt → Settings
settings_from s [] = s
settings_from s (o ∷ os) = settings_from (set_option s o) os

abbrev pub ublk_max_queues : ℕ
ublk_max_queues = 4

module _ (abi : Abi) (host : Host) (backing : Backing) where
  -- The device of `cmd_dev_add`, as its settings describe it.
  unfoldable pub configure : UblkDev → Settings → Target → UblkDev
  configure dev s tgt = record dev {
    dev_info = record (dev.dev_info) {
      dev_id = s.dev_id;
      nr_hw_queues = s.nr_queues;
      queue_depth = s.queue_depth;
      user_recovery = s.user_recovery;
    };
    ops = some tgt;
  }

  -- From `ublk_ctrl_add_dev` on: the device is deleted again once the daemon has returned.
  unfoldable pub add_and_serve : UblkDev → Settings → Target → M ℤ
  add_and_serve dev s tgt = do
    added ← ublk_ctrl_add_dev abi host dev
    elim (is_neg (added.0)) [
      | true ↦ do ublk_ctrl_deinit abi host (some (added.1)); pure (added.0)
      | false ↦ do
        ret ← ublk_start_daemon abi host backing (added.1) s.backing_file tgt false
        ublk_ctrl_del_dev abi host (ret.1)
        ublk_ctrl_deinit abi host (some (ret.1))
        pure (ret.0)
    ]

  -- A read past the table is taken for an access through a bad pointer.
  unfoldable pub cmd_dev_add : List Opt → M ℤ
  cmd_dev_add opts =
      let s = settings_from default_settings opts in
      elim (ublk_find_tgt s.tgt_type) [
        | past_the_end ↦ null_deref
        | null_pointer ↦ pure (neg abi.enodev)
        | entry tgt ↦ elim (ltb ublk_max_queues s.nr_queues || ltb 128 s.queue_depth) [
          | true ↦ pure (neg abi.einval)
          | false ↦ do
            dev ← ublk_ctrl_init abi host
            elim dev [
              | none ↦ pure (neg abi.enomem)
              | some d ↦ add_and_serve (configure d s tgt) s tgt
            ]
        ]
      ]

  -- From `ublk_ctrl_get_info` on. The result of stopping the daemon is returned, and the device is
  -- deleted whatever it was.
  unfoldable pub stop_and_delete : UblkDev → M ℤ
  stop_and_delete dev = do
    info ← ublk_ctrl_get_info abi host dev
    elim (is_neg (info.0)) [
      | true ↦ do ublk_ctrl_deinit abi host (some (info.1)); pure (info.0)
      | false ↦ do
        stopped ← ublk_ctrl_stop_dev abi host (info.1)
        elim (is_neg stopped) [
          | true ↦ do ublk_ctrl_deinit abi host (some (info.1)); pure stopped
          | false ↦ do
            ret ← ublk_stop_io_daemon abi host backing (info.1)
            ublk_ctrl_del_dev abi host (info.1)
            ublk_ctrl_deinit abi host (some (info.1))
            pure ret
        ]
    ]

  unfoldable pub __cmd_dev_del : ℤ → M ℤ
  __cmd_dev_del id = do
    dev ← ublk_ctrl_init abi host
    elim dev [
      | none ↦ do ublk_ctrl_deinit abi host none; pure (neg abi.enodev)
      | some d ↦ stop_and_delete (record d { dev_info = record (d.dev_info) { dev_id = id } })
    ]

  unfoldable pub __cmd_dev_list : ℤ → M ℤ
  __cmd_dev_list id = do
    dev ← ublk_ctrl_init abi host
    elim dev [
      | none ↦ pure (neg abi.enodev)
      | some d ↦ do
        info ←
            ublk_ctrl_get_info abi host
              (record d { dev_info = record (d.dev_info) { dev_id = id } })
        shown ← elim (is_neg (info.0)) [
          | true ↦ pure tt
          | false ↦ ublk_ctrl_dump abi host backing (info.1)
        ]
        ublk_ctrl_deinit abi host (some (info.1))
        pure (info.0)
    ]

  -- Recovery: the driver's information and parameters are read back before the daemon starts.
  unfoldable pub recover_and_serve : UblkDev → Settings → Target → M ℤ
  recover_and_serve dev s tgt = do
    info ← ublk_ctrl_get_info abi host dev
    elim (is_neg (info.0)) [
      | true ↦ do ublk_ctrl_deinit abi host (some (info.1)); pure (info.0)
      | false ↦ do
        params ← ublk_ctrl_get_params abi host (info.1)
        elim (eqb (params.0) (pos 0)) [
          | false ↦ do ublk_ctrl_deinit abi host (some (params.1)); pure (params.0)
          | true ↦ do
            started ← ublk_ctrl_start_user_recover abi host (params.1)
            elim (is_neg started) [
              | true ↦ do ublk_ctrl_deinit abi host (some (params.1)); pure started
              | false ↦ do
                ret ←
                    ublk_start_daemon abi host backing (record (params.1) { ops = some tgt })
                      s.backing_file tgt true
                ublk_ctrl_del_dev abi host (ret.1)
                ublk_ctrl_deinit abi host (some (ret.1))
                pure (ret.0)
            ]
        ]
    ]

  unfoldable pub cmd_dev_recover : List Opt → M ℤ
  cmd_dev_recover opts =
      let s = settings_from default_settings opts in
      elim (ublk_find_tgt s.tgt_type) [
        | past_the_end ↦ null_deref
        | null_pointer ↦ pure (neg abi.enodev)
        | entry tgt ↦ do
          dev ← ublk_ctrl_init abi host
          elim dev [
            | none ↦ pure (neg abi.enomem)
            | some d ↦
                recover_and_serve
                  (record d { dev_info = record (d.dev_info) { dev_id = s.dev_id } }) s tgt
          ]
      ]

  -- `for (i = 0; i < 255; i++)`, for a subcommand on the devices from `i` on.
  unfoldable pub on_each_device : (ℤ → M ℤ) → ℕ → ℕ → M ℤ
  on_each_device f zero i = pure (pos 0)
  on_each_device f (suc left) i = do f (pos i); on_each_device f left (i + 1)

  -- `number` as the options set it, from what it is at first.
  unfoldable pub number_from : ℤ → List Opt → ℤ
  number_from n [] = n
  number_from n (number k ∷ os) = number_from k os
  number_from n (all ∷ os) = number_from (negsuc 0) os
  number_from n (o ∷ os) = number_from n os

  unfoldable pub cmd_dev_del : List Opt → M ℤ
  cmd_dev_del opts =
      let n = number_from (negsuc 1) opts in
      if not (is_neg n)
      then __cmd_dev_del n
      else (if eqb n (negsuc 0) then on_each_device __cmd_dev_del 255 0 else pure (neg abi.einval))
