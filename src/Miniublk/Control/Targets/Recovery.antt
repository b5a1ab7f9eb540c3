-- ===== src/Miniublk/Control/Targets/Recovery.antt =====
-- When recovery accepts what setup recorded, and names that are not in the table.
use ndt.Base.{◌%◌, ◌^◌, ◌<◌, ◌≡◌, ◌≢◌, ◌↔◌, arith, Bool, true, some}
use Prim.Native.String.{String}
use text.Mathlib.TextEquality.{eq_iff}
use ndt.Miniublk.Abi.{Abi}
use ndt.Miniublk.Control.Commands.{Host, UblkDev}
use ndt.Miniublk.Control.Targets.{
  other_file, Backing, Geometry, loop_params, recover_accepts, ublk_find_tgt, past_the_end,
}

-- A name that is in neither entry of the table sends `ublk_find_tgt` past the table's end.
ublk_find_tgt_unknown :
    (name : String) → name ≢ "null" → name ≢ "loop" → ublk_find_tgt (some name) ≡ past_the_end
unfolding ublk_find_tgt
ublk_find_tgt_unknown name a b = ground (arith, eq_iff "null" name, eq_iff "loop" name)

module _ (abi : Abi) (host : Host) (dev : UblkDev) (b : Backing) (g : Geometry) where
  -- For a block device or a regular file, recovery with the geometry and the mode of access that
  -- setup had accepts exactly if the size of the file, which fits 64 bits, is a whole number of
  -- 512-byte sectors.
  pub recover_accepts-loop_params_iff :
      g.bytes < 2 ^ 64
      → b.mode ≢ other_file
      → (direct : Bool)
      → (recover_accepts abi host (loop_params abi host dev b g direct) b g direct ≡ true)
        ↔ (g.bytes % 512 ≡ 0)
  unfolding recover_accepts loop_params
  recover_accepts-loop_params_iff fits has_sizes direct = (λ e. ground arith, λ e. ground arith)
