-- ===== src/NvmePassthroughMeta/Script.antt =====
-- The calls of a successful run, written down in advance.
pub mod Whole
use ndt.Base.{
  ℕ, zero, suc, ◌-◌, ◌<◌, ◌≤◌, ◌≡◌, refl, sym, ◌∙◌, arith, ltb, ◌==◌, Bool, true, false, Bool-cases,
  inl, inr,
}
use ndt.Base.{ℤ, pos, negsuc, neg, is_neg, eqb, List, [], ◌∷◌, ◌++◌, if◌then◌else◌, ◌↔◌}
use ndt.NvmePassthroughMeta.{
  go_on, Host, Call, open_device, ioctl_id, ioctl_admin_cmd, ioctl_io_cmd, map_pages, Address,
  in_writable, in_read_only, NvmePassthruCmd, Run, Ended, running, returned, undefined_shift, ◌>>=◌,
  require, current_lbaf, identify_cmd, io_cmd, check_format, expect_failure, exchange, passthrough,
  main,
}

-- `errno` after a failure and the numbers of <errno.h> are positive.
pub record IsPosix (host : Host) : Type 0 where
  pub errno_pos : (calls : List Call) → 0 < host.errno calls
  pub einval_pos : 0 < host.einval
  pub efault_pos : 0 < host.efault

module _ (host : Host) where
  -- The namespace that the device names.
  abbrev pub namespace : ℤ
  namespace = host.answer (open_device ∷ []) ioctl_id

  abbrev pub io : ℕ → Address → Call
  io opcode meta = ioctl_io_cmd (io_cmd host namespace opcode meta)

  -- The calls that have to be answered without an error, in their order.
  abbrev pub script : List Call
  script =
      open_device
      ∷ ioctl_id
      ∷ ioctl_admin_cmd (identify_cmd host namespace)
      ∷ map_pages 8192 true
      ∷ io 1 (in_writable 0)
      ∷ io 2 (in_writable 0)
      ∷ io 1 (in_writable (4096 - 16))
      ∷ io 2 (in_writable (4096 - 16))
      ∷ map_pages 8192 false
      ∷ io 1 (in_read_only 0)
      ∷ []

  -- None of the calls is answered with an error, after the earlier ones.
  abbrev pub Follows : List Call → List Call → Type 0
  Follows [] calls = Unit
  Follows (c ∷ later) calls = (is_neg (host.answer calls c) ≡ false) × Follows later (c ∷ calls)

  abbrev pub after : List Call → List Call → List Call
  after [] calls = calls
  after (c ∷ later) calls = after later (c ∷ calls)

  module _ {A : Type 0} (f : ℤ → Run A) (calls : List Call) where
    pub require-granted :
        (by_errno : Bool) (c : Call)
        → is_neg (host.answer calls c) ≡ false
        → (require host by_errno c >>= f) calls ≡ f (host.answer calls c) (c ∷ calls)
    unfolding require
    require-granted by_errno c h = rw h refl

    pub exchange-granted :
        (by_errno : Bool) (nsid : ℤ) (meta : Address)
        → let write = ioctl_io_cmd (io_cmd host nsid 1 meta) in
          let read = ioctl_io_cmd (io_cmd host nsid 2 meta) in
          is_neg (host.answer calls write) ≡ false
          → is_neg (host.answer (write ∷ calls) read) ≡ false
          → (exchange host by_errno nsid meta >>= f) calls
            ≡ f (host.answer (write ∷ calls) read) (read ∷ write ∷ calls)
    unfolding exchange require
    exchange-granted by_errno nsid meta h k = rw (h, k) refl

    pub require_step :
        IsPosix host
        → (by_errno : Bool) (c : Call) (trace : List Call)
        → (require host by_errno c >>= f) calls ≡ returned (pos 0) trace
        → (is_neg (host.answer calls c) ≡ false)
          × (f (host.answer calls c) (c ∷ calls) ≡ returned (pos 0) trace)
    unfolding require
    require_step posix true c trace h = elim (Bool-cases (is_neg (host.answer calls c))) [
      | inl k ↦ absurd (ground (arith, rw k at h, posix.errno_pos (c ∷ calls)))
      | inr k ↦ (k, rw k at h)
    ]
    require_step posix false c trace h = elim (Bool-cases (is_neg (host.answer calls c))) [
      | inl k ↦ absurd (negative (host.answer calls c) k (rw k at h))
      | inr k ↦ (k, rw k at h)
    ]
      where
        negative :
            (ret : ℤ)
            → is_neg ret ≡ true
            → ¬ (◌≡◌ {A = Ended A} (returned ret (c ∷ calls)) (returned (pos 0) trace))
        negative ret k e = grind (arith, k, e)

  go_on_assoc :
      {A B C : Type 0} (e : Ended A) (g : A → Run B) (f : B → Run C)
      → go_on (go_on e g) f ≡ go_on e (λ a later. go_on (g a later) f)
  go_on_assoc (running a calls) g f = refl
  go_on_assoc (returned code calls) g f = refl
  go_on_assoc undefined_shift g f = refl

  pub exchange_step :
      {A : Type 0} (f : ℤ → Run A) (calls : List Call)
      → IsPosix host
      → (by_errno : Bool) (nsid : ℤ) (meta : Address) (trace : List Call)
      → (exchange host by_errno nsid meta >>= f) calls ≡ returned (pos 0) trace
      → let write = ioctl_io_cmd (io_cmd host nsid 1 meta) in
        let read = ioctl_io_cmd (io_cmd host nsid 2 meta) in
        (is_neg (host.answer calls write) ≡ false)
        × (is_neg (host.answer (write ∷ calls) read) ≡ false)
        × (f (host.answer (write ∷ calls) read) (read ∷ write ∷ calls) ≡ returned (pos 0) trace)
  unfolding exchange
  exchange_step f calls posix by_errno nsid meta trace h =
      let write = ioctl_io_cmd (io_cmd host nsid 1 meta) in
      let read = ioctl_io_cmd (io_cmd host nsid 2 meta) in
      let apart =
        sym (go_on_assoc (require host by_errno write calls) (λ _. require host by_errno read) f)
        ∙ h in
      let (granted, k) =
        require_step (λ _. require host by_errno read >>= f) calls posix by_errno write trace
          apart in
      let (granted_read, rest) = require_step f (write ∷ calls) posix by_errno read trace k in
      (granted, granted_read, rest)

  pub format_step :
      {A : Type 0} (f : ℤ → Run A) (calls : List Call)
      → IsPosix host
      → (trace : List Call) → (check_format host >>= f) calls ≡ returned (pos 0) trace
      → ((current_lbaf host).ds < 31)
        × (0 < (current_lbaf host).ms)
        × (f (pos 0) calls ≡ returned (pos 0) trace)
  unfolding check_format
  format_step {A} f calls posix trace h = elim (Bool-cases (ltb (current_lbaf host).ds 31)) [
    | inl k ↦ elim (Bool-cases ((current_lbaf host).ms == 0)) [
      | inl z ↦ absurd (refused_format host.einval posix.einval_pos (rw (k, z) at h))
      | inr z ↦ (ground (arith, k), ground (arith, z), rw (k, z) at h)
    ]
    | inr k ↦ absurd (never (rw k at h))
  ]
    where
      refused_format :
          (e : ℕ) → 0 < e → ¬ (◌≡◌ {A = Ended A} (returned (neg e) calls) (returned (pos 0) trace))
      refused_format zero l k = absurd (omega arith)
      refused_format (suc e) l k = ground (arith, k)

      never : ¬ (◌≡◌ {A = Ended A} undefined_shift (returned (pos 0) trace))
      never k = ground (arith, k)
