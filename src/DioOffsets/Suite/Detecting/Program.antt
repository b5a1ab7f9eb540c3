-- ===== src/DioOffsets/Suite/Detecting/Program.antt =====
-- What the whole program has seen when it succeeds.
use ndt.Base.{◌≡◌, arith, ltb, Bool-cases, inl, inr}
use ndt.DioOffsets.Globals.{Globals, System, ok, init_args, init_buffers}
use ndt.DioOffsets.Globals.Sound.{IsSound, init_args-IsSound}
use ndt.DioOffsets.Device.{Device, State}
use ndt.DioOffsets.Suite.{main}
use ndt.DioOffsets.Suite.Detecting.{chained}
use ndt.DioOffsets.Suite.Detecting.Whole.{IsVerified, run_tests-IsVerified}

-- When the program succeeds, its arguments were accepted and sound and its buffers allocated, and on
-- the way, from the state that each test had left to the next, the four transfers of aligned bytes
-- were taken, read back and came back byte for byte; the vectors with a null address were refused,
-- and so were those of the late poisoned test, and, for an alignment above 1, those with an unaligned
-- address or length; those of the vector limits were refused where the test says that they should
-- fail.
pub main-IsVerified :
    {D : Type 0} (dev : Device D) (sys : System) (s s' : State D)
    → main dev sys s ≡ ok s'
    → (args : Globals) × (g : Globals) × (init_args sys ≡ ok args)
      × IsSound args
      × (init_buffers sys args ≡ ok g)
      × IsVerified dev g s s'
unfolding main
main-IsVerified dev sys s s' h = elim (Bool-cases (ltb sys.argc 2)) [
  | inl few ↦ absurd (ground (arith, few))
  | inr enough ↦ chained (init_args sys) _ _ (rw enough at h) λ args accepted h1.
      chained (init_buffers sys args) _ _ h1 λ g allocated h2. (
        args,
        g,
        accepted,
        init_args-IsSound sys args accepted,
        allocated,
        run_tests-IsVerified dev g s s' h2,
      )
]
