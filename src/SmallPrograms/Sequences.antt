-- ===== src/SmallPrograms/Sequences.antt =====
-- Programs of a few calls: loop_change_fd.c, sg/dxfer-from-dev.c and openclose.c.
use ndt.Base.{ℕ, zero, suc, ◌==◌, not, if◌then◌else◌, ℤ, pos, is_neg, eqb}
use ndt.SmallPrograms.{
  loop_change_fd, sg_set_reserved_size, sg_set_timeout, number, open_file, ioctl, close_file,
  write_bytes, Host, Output, nothing, pass, fail, Prog, exit_with, perform, failed, closing,
  repeats,
}

module _ (host : Host) where
  abbrev close_both : ℤ → ℤ → ℤ → Prog
  close_both fd filefd status =
      perform host (close_file fd) (λ ret. closing host filefd status nothing)

  unfoldable pub change_fd : ℕ → Prog
  change_fd argc t =
      if not (argc == 3)
      then exit_with (pos 1) nothing t
      else perform host (open_file 1)
          (λ fd t1.
            if failed fd
            then exit_with (pos 1) nothing t1
            else perform host (open_file 2)
                (λ filefd t2.
                  if failed filefd
                  then exit_with (pos 1) nothing t2
                  else perform host (ioctl fd (host.code loop_change_fd) (number filefd))
                      (λ ret t3.
                        if failed ret
                        then close_both fd filefd (pos 1) t3
                        else close_both fd filefd (pos 0) t3)
                      t2)
                t1)
          t

  -- From `out_close` on.
  abbrev out_close : ℤ → ℤ → Output → Prog
  out_close fd rc shown = closing host fd (if eqb rc (pos 0) then pos 0 else pos 1) shown

  unfoldable pub dxfer_from_dev : ℕ → Prog
  dxfer_from_dev argc t =
      if not (argc == 2)
      then exit_with (pos 1) nothing t
      else perform host (open_file 1)
          (λ fd t1.
            if is_neg fd
            then exit_with (pos 1) nothing t1
            else perform host (ioctl fd (host.code sg_set_reserved_size) (number (pos 131072)))
                (λ rc t2.
                  if is_neg rc
                  then out_close fd rc nothing t2
                  else perform host (ioctl fd (host.code sg_set_timeout) (number (pos 10800000)))
                      (λ rc' t3.
                        if is_neg rc'
                        then out_close fd rc' nothing t3
                        else perform host (write_bytes fd 42)
                            (λ written t4.
                              if is_neg written
                              then out_close fd written
                                  (if host.errno t4 == host.einval then fail else nothing) t4
                              else out_close fd (pos 0) pass t4)
                            t3)
                      t2)
                t1)
          t

  unfoldable pub open_and_close : ℕ → Prog
  open_and_close zero = exit_with (pos 0) nothing
  open_and_close (suc left) =
      let rest = open_and_close left in
      perform host (open_file 1) (λ fd t1.
        if failed fd
        then exit_with (pos 1) nothing t1
        else perform host (close_file fd)
            (λ closed t2. if failed closed then exit_with (pos 1) nothing t2 else rest t2) t1)

  -- With what atoi makes of the last argument.
  unfoldable pub openclose : ℕ → ℤ → Prog
  unfolding open_and_close
  openclose argc n t =
      if not (argc == 3) then exit_with (pos 1) nothing t else open_and_close (repeats n) t
