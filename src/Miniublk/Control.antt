-- ===== src/Miniublk/Control.antt =====
-- The control side of miniublk: the commands to /dev/ublk-control, the targets' setup, the daemon, and
-- the program's subcommands. `Monad` has the calls into the system, in their order.
pub mod Monad
pub mod Commands
pub mod Targets
pub mod Daemon
pub mod Subcommands
pub mod Program
