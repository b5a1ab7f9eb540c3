-- ===== src/SmallPrograms/Uring.antt =====
-- nvme-passthru-admin-uring.c: an Identify command, sent by io_uring.
use ndt.Base.{ℕ, ltb, if◌then◌else◌, ℤ, pos, neg, is_neg, eqb, Option, none, some}
use ndt.SmallPrograms.{
  open_file, calloc, free, ring_init, ring_submit, ring_wait, ring_seen, ring_exit, UringCmd, Host,
  nothing, Prog, exit_with, perform, closing,
}

-- NVME_IDENTIFY_ADMIN_CMD for the controller, with an answer of the size of `struct nvme_id_ctrl`.
unfoldable pub identify : ℤ → ℤ → UringCmd
identify fd nctrl = record { fd = fd; opcode = 0x06; addr = nctrl; data_len = 4096; cdw10 = 1 }

abbrev pub uring_result : ℤ → Option ℤ → ℤ
uring_result ret none = if is_neg ret then ret else pos 0
uring_result ret (some res) = if is_neg ret then ret else (if is_neg res then res else pos 0)

module _ (host : Host) where
  -- From `free_nctrl` on.
  abbrev pub free_nctrl : ℤ → ℤ → ℤ → Prog
  free_nctrl fd nctrl ret = perform host (free nctrl) (λ done. closing host fd ret nothing)

  abbrev pub seen : Option ℤ → Prog → Prog
  seen none k = k
  seen (some res) k = perform host ring_seen (λ done. k)

  unfoldable pub send_identify : ℤ → ℤ → Prog
  unfolding identify
  send_identify fd nctrl = perform host (ring_submit (identify fd nctrl)) (λ submitted.
      perform host ring_wait (λ ret t.
        seen (host.cqe_res t)
          (perform host ring_exit (λ done. free_nctrl fd nctrl (uring_result ret (host.cqe_res t))))
          t))

  -- A memory address that is 0 is the null pointer.
  unfoldable pub nvme_passthru_admin_uring : ℕ → Prog
  unfolding send_identify
  nvme_passthru_admin_uring argc t =
      if ltb argc 2
      then exit_with (neg host.einval) nothing t
      else perform host (open_file 1)
          (λ fd t1.
            if is_neg fd
            then exit_with (neg (host.errno t1)) nothing t1
            else perform host (calloc 4096)
                (λ nctrl t2.
                  if eqb nctrl (pos 0)
                  then closing host fd (neg host.enomem) nothing t2
                  else perform host (ring_init 80)
                      (λ ret t3.
                        if is_neg ret
                        then free_nctrl fd nctrl ret t3
                        else send_identify fd nctrl t3)
                      t2)
                t1)
          t
