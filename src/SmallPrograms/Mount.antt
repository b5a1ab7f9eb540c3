-- ===== src/SmallPrograms/Mount.antt =====
-- mount_clear_sock.c: mounting a network block device in one process and clearing its socket in another.
use ndt.Base.{ℕ, zero, suc, ◌==◌, not, if◌then◌else◌, ℤ, pos, eqb}
use ndt.SmallPrograms.{
  nbd_clear_sock, number, open_file, ioctl, fork, waitpid, mount, umount, Host, nothing, Prog,
  exit_with, perform, failed, closing, repeats,
}

module _ (host : Host) where
  unfoldable pub mount_process : Prog
  mount_process = perform host mount (λ a. perform host umount (λ b. exit_with (pos 0) nothing))

  unfoldable pub clear_sock_process : ℤ → Prog
  clear_sock_process fd =
      perform host (ioctl fd (host.code nbd_clear_sock) (number (pos 0)))
        (λ ret t. if failed ret then exit_with (pos 1) nothing t else exit_with (pos 0) nothing t)

  -- A process is waited for, and the program goes on if it has ended well.
  abbrev wait_for : ℤ → Prog → Prog
  wait_for pid k = perform host (waitpid pid) (λ ret t.
      if failed ret
      then exit_with (pos 1) nothing t
      else (if host.exited_well t then k t else exit_with (pos 1) nothing t))

  -- In the new process fork answers 0.
  unfoldable pub mount_rounds : ℕ → ℤ → Prog
  unfolding mount_process clear_sock_process
  mount_rounds zero fd = closing host fd (pos 0) nothing
  mount_rounds (suc left) fd =
      let rest = mount_rounds left fd in
      perform host fork (λ mount_pid t1.
        if failed mount_pid
        then exit_with (pos 1) nothing t1
        else (if eqb mount_pid (pos 0)
            then mount_process t1
            else perform host fork
                (λ clear_sock_pid t2.
                  if failed clear_sock_pid
                  then exit_with (pos 1) nothing t2
                  else (if eqb clear_sock_pid (pos 0)
                      then clear_sock_process fd t2
                      else wait_for mount_pid (wait_for clear_sock_pid rest) t2))
                t1))

  -- With what atoi makes of the last argument.
  unfoldable pub mount_clear_sock : ℕ → ℤ → Prog
  unfolding mount_rounds
  mount_clear_sock argc loops t =
      if not (argc == 5)
      then exit_with (pos 1) nothing t
      else perform host (open_file 1)
          (λ fd t1.
            if failed fd then exit_with (pos 1) nothing t1 else mount_rounds (repeats loops) fd t1)
          t
