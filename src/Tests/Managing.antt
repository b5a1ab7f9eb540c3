-- ===== src/Tests/Managing.antt =====
-- Hosts, backing files and settings for the subcommands.
use ndt.Base.{none, ◌%◌, ◌≡◌, ◌≢◌, ◌↔◌, refl, arith, true, some}
use ndt.Base.{List, [], ◌∷◌, pos, negsuc}
use Prim.Native.String.{String}
use ndt.Miniublk.Types.{loop_tgt}
use ndt.Miniublk.Control.Monad.{calloc_dev, ctrl_get_sqe, returned}
use ndt.Miniublk.Control.Commands.{Host, new_dev}
use ndt.Miniublk.Control.Targets.{
  block_device, other_file, Backing, Geometry, ublk_find_tgt, scan_tgt, entry, loop_params,
  recover_accepts,
}
use ndt.Miniublk.Control.Targets.Recovery.{recover_accepts-loop_params_iff}
use ndt.Miniublk.Control.Subcommands.{
  Opt, type_name, depth, default_settings, set_option, settings_from,
}
use ndt.Miniublk.Control.Monad.{pure}
use ndt.Miniublk.Control.Program.{dispatch}
use ndt.Tests.Machine.{linux}

-- A host where all goes well.
abbrev good : Host
good = record {
  answers = λ t c. elim c [ ctrl_get_sqe ↦ pos 1 | calloc_dev ↦ pos 1 | _ ↦ pos 0 ];
  info_after = λ t i. i;
  params_after = λ t p. p;
}

-- A disk of eight sectors.
abbrev disk : Backing
disk = record {
  mode = block_device;
  size64 = 4096;
  sector_size = 512;
  physical_sector_size = 4096;
  st_size = 0;
  st_blksize = 512;
  clz = λ x. 22;
}

find_loop : ublk_find_tgt (some "loop") ≡ entry loop_tgt
unfolding ublk_find_tgt scan_tgt
find_loop = refl

abbrev too_deep : List Opt
too_deep = type_name "loop" ∷ depth (pos 129) ∷ []

too_deep_settings :
    settings_from default_settings too_deep
    ≡ record default_settings { tgt_type = some "loop"; queue_depth = 129 }
unfolding settings_from set_option
too_deep_settings = refl

unlike_null : ◌≢◌ {A = String} "stripe" "null"
unlike_null e = cc

unlike_loop : ◌≢◌ {A = String} "stripe" "loop"
unlike_loop e = cc

not_other : block_device ≢ other_file
not_other e = cc

abbrev whole : Geometry
whole = record { bytes = 4096; bs = 512; pbs = 4096 }

recover_accepts-loop_params_iff_example :
    (recover_accepts linux good (loop_params linux good new_dev disk whole true) disk whole true
      ≡ true)
    ↔ (4096 % 512 ≡ 0)
recover_accepts-loop_params_iff_example =
    recover_accepts-loop_params_iff linux good new_dev disk whole (omega arith) not_other true

-- Without an argument, nothing is called.
dispatch_test : dispatch linux good disk none [] [] ≡ returned (negsuc 21) []
unfolding dispatch pure
dispatch_test = refl
