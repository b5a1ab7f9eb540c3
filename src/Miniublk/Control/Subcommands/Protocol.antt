-- ===== src/Miniublk/Control/Subcommands/Protocol.antt =====
-- The subcommands return on every path, and give the control device back.
use ndt.Base.{◌≡◌, pos, eqb, false, ◌∷◌}
use Prim.Native.String.{String}
use ndt.Miniublk.Abi.{Abi}
use ndt.Miniublk.Control.Monad.{close_ctrl, free_dev, daemonize, Trace}
use ndt.Miniublk.Control.Commands.{Host}
use ndt.Miniublk.Control.Targets.{Backing}

module _ (abi : Abi) (host : Host) where
  module _ (backing : Backing) where
    -- The answers are those to the process that goes on after `daemon`.
    abbrev pub GoesOn : Type 0
    GoesOn = (t : Trace) → eqb (host.answers t daemonize) (pos 1) ≡ false

    -- The two last calls close the control device and free the memory.
    abbrev pub Closed : Trace → Type 0
    Closed t = (before : Trace) × (t ≡ free_dev ∷ close_ctrl ∷ before)
