-- ===== src/SmallPrograms/Ioctls.antt =====
-- Programs that make one request of one device: loblksize.c, nbdsetsize.c, loop_get_status_null.c,
-- ioctl-lbmd-query.c and zbdioctl.c.
use ndt.Base.{
  ℕ, ◌%◌, ◌==◌, Bool, true, false, not, ◌&&◌, if◌then◌else◌, ℤ, pos, is_neg, List, [], ◌∷◌, Option,
  none, some,
}
use ndt.SmallPrograms.{
  Request, loop_set_block_size, loop_get_status, loop_get_status64, nbd_set_size,
  fs_ioc_getlbmd_cap, blkgetzonesz, blkgetnrzones, null, out, number, open_file, ioctl, close_file,
  Host, nothing, got_einval, did_not_get_einval, unsupported, value, capabilities, Prog, exit_with,
  perform, failed, closing,
}

-- The first argument of zbdioctl.
pub data RequestName : Type 0 where
  opt_s opt_n other_name : RequestName

abbrev same_name : RequestName → RequestName → Bool
same_name opt_s opt_s = true
same_name opt_n opt_n = true
same_name _ _ = false

abbrev requests : List (RequestName × Request)
requests = (opt_s, blkgetzonesz) ∷ (opt_n, blkgetnrzones) ∷ []

-- `argc`, and what strtoull makes of the last argument, `none` where it is no number.
module _ (host : Host) where
  abbrev ask : Request → ℕ → ℤ → Prog
  ask request n fd = perform host (ioctl fd (host.code request) (number (pos n))) (λ ret t.
      if failed ret
      then closing host fd (if host.errno t == host.einval then pos 2 else pos 1) nothing t
      else closing host fd (pos 0) nothing t)

  abbrev ask_of : Request → Option ℕ → Prog
  ask_of request none = exit_with (pos 1) nothing
  ask_of request (some n) =
      perform host (open_file 1)
        (λ fd t. if failed fd then exit_with (pos 1) nothing t else ask request n fd t)

  unfoldable pub loblksize : ℕ → Option ℕ → Prog
  loblksize argc blksize t =
      if not (argc == 3) then exit_with (pos 1) nothing t else ask_of loop_set_block_size blksize t

  unfoldable pub nbdsetsize : ℕ → Option ℕ → Prog
  nbdsetsize argc size t =
      if not (argc == 3) then exit_with (pos 1) nothing t else ask_of nbd_set_size size t

  abbrev get_status : Request → Prog
  get_status cmd = perform host (open_file 1) (λ fd t.
      if failed fd
      then exit_with (pos 1) nothing t
      else perform host (ioctl fd (host.code cmd) null)
          (λ ret t'.
            if failed ret
            then (if host.errno t' == host.einval
                then closing host fd (pos 0) got_einval t'
                else closing host fd (pos 1) nothing t')
            else closing host fd (pos 0) did_not_get_einval t')
          t)

  -- `is_64` tells whether the second argument, where there is one, is "64".
  unfoldable pub loop_get_status_null : ℕ → Bool → Prog
  loop_get_status_null argc is_64 t =
      if not (argc == 2) && not (argc == 3)
      then exit_with (pos 1) nothing t
      else (if argc == 3
          then (if is_64 then get_status loop_get_status64 t else exit_with (pos 1) nothing t)
          else get_status loop_get_status t)

  abbrev shown_capabilities : ℕ × ℕ × ℕ → ℤ → Prog
  shown_capabilities (flags, interval, size) status =
      exit_with status
        (if flags % 2 == 0 then unsupported else capabilities (flags, interval, size))

  unfoldable pub lbmd_query : ℕ → Prog
  lbmd_query argc t =
      if not (argc == 2)
      then exit_with (pos 1) nothing t
      else perform host (open_file 1)
          (λ fd t1.
            if is_neg fd
            then exit_with (pos 1) nothing t1
            else perform host (ioctl fd (host.code fs_ioc_getlbmd_cap) out)
                (λ ret t2.
                  if is_neg ret
                  then closing host fd (pos 1) nothing t2
                  else perform host (close_file fd)
                      (λ closed. shown_capabilities (host.capability t2) (pos 0)) t2)
                t1)
          t

  -- The code of the first entry with the name, or 0.
  unfoldable pub code_of : RequestName → List (RequestName × Request) → ℕ
  code_of name [] = 0
  code_of name ((n, r) ∷ table) =
      let rest = code_of name table in if same_name name n then host.code r else rest

  unfoldable pub zbdioctl : ℕ → RequestName → Prog
  unfolding code_of
  zbdioctl argc name t =
      let code = code_of name requests in
      if not (argc == 3)
      then exit_with (pos 1) nothing t
      else (if code == 0
          then exit_with (pos 1) nothing t
          else perform host (open_file 2)
              (λ fd t1.
                if is_neg fd
                then exit_with (pos 1) nothing t1
                else perform host (ioctl fd code out)
                    (λ ret t2.
                      if is_neg ret
                      then closing host fd (pos 1) nothing t2
                      else closing host fd (pos 0) (value (host.out_value t2)) t2)
                    t1)
              t)
