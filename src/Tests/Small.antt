-- ===== src/Tests/Small.antt =====
-- The small programs on a system where everything succeeds.
use ndt.Base.{ℤ, ◌≡◌, refl, true, pos, [], some}
use ndt.SmallPrograms.{Call, open_file, calloc, fork, Host}
use ndt.SmallPrograms.Ioctls.{
  loblksize, nbdsetsize, loop_get_status_null, lbmd_query, opt_n, zbdioctl,
}
use ndt.SmallPrograms.Sequences.{dxfer_from_dev, openclose}
use ndt.SmallPrograms.Uring.{nvme_passthru_admin_uring}
use ndt.SmallPrograms.Mount.{mount_rounds, mount_clear_sock}
use ndt.SmallPrograms.Resources.{held}
use ndt.SmallPrograms.Resources.Released.{programs_release}
use ndt.SmallPrograms.Resources.Waiting.{mount_clear_sock-held}

abbrev answers : Call → ℤ
answers (open_file path) = pos 3
answers (calloc n) = pos 0x1000
answers fork = pos 100
answers _ = pos 0

abbrev willing : Host
willing = record {
  answer = λ t c. answers c;
  errno = λ t. 0;
  out_value = λ t. 524288;
  capability = λ t. (1, 512, 8);
  cqe_res = λ t. some (pos 0);
  exited_well = λ t. true;
  code = λ r. 0x80041284;
  einval = 22;
  enomem = 12;
}

programs_release_example :
    (held (loblksize willing 3 (some 4096) []).trace ≡ [])
    × (held (nbdsetsize willing 3 (some 4096) []).trace ≡ [])
    × (held (loop_get_status_null willing 3 true []).trace ≡ [])
    × (held (lbmd_query willing 3 []).trace ≡ [])
    × (held (zbdioctl willing 3 opt_n []).trace ≡ [])
    × (held (dxfer_from_dev willing 3 []).trace ≡ [])
    × (held (openclose willing 3 (pos 2) []).trace ≡ [])
    × (held (nvme_passthru_admin_uring willing 3 []).trace ≡ [])
programs_release_example = programs_release willing 3 (some 4096) true opt_n (pos 2)

two_rounds_test : (mount_clear_sock willing 5 (pos 2) []).status ≡ pos 0
unfolding mount_clear_sock mount_rounds
two_rounds_test = refl

mount_clear_sock-held_example : held (mount_clear_sock willing 5 (pos 2) []).trace ≡ []
mount_clear_sock-held_example = mount_clear_sock-held willing (λ t. refl) 5 (pos 2) two_rounds_test
