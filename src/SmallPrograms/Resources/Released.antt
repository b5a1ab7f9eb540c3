-- ===== src/SmallPrograms/Resources/Released.antt =====
-- The programs that give back all that they have taken.
use ndt.Base.{ℕ, zero, suc, Bool, Bool-cases, if◌then◌else◌, inl, inr}
use ndt.Base.{ℤ, eqb_refl, pos, is_neg, eqb, List, [], ◌∷◌, Option, none, some, ◌≡◌, refl, arith}
use ndt.SmallPrograms.{
  Host, Event, Prog, open_file, close_file, calloc, ring_init, ring_exit, perform, repeats,
  ring_submit, ring_wait,
}
use ndt.SmallPrograms.Ioctls.{
  loblksize, nbdsetsize, loop_get_status_null, lbmd_query, RequestName, zbdioctl,
}
use ndt.SmallPrograms.Sequences.{dxfer_from_dev, open_and_close, openclose}
use ndt.SmallPrograms.Uring.{
  seen, free_nctrl, send_identify, nvme_passthru_admin_uring, identify, uring_result,
}
use ndt.SmallPrograms.Resources.{Resource, descriptor, memory, ring, held}

-- A program that holds nothing when it starts at some events holds nothing at its end.
abbrev IsReleased : Prog → Type 0
IsReleased p = (t : List Event) → held t ≡ [] → held (p t).trace ≡ []

module _ (host : Host) where
  loblksize-IsReleased : (argc : ℕ) (n : Option ℕ) → IsReleased (loblksize host argc n)
  unfolding loblksize
  loblksize-IsReleased argc none t h = ground (arith, h)
  loblksize-IsReleased argc (some n) t h = ground (arith, h, eqb_refl (host.answer t (open_file 1)))

  nbdsetsize-IsReleased : (argc : ℕ) (n : Option ℕ) → IsReleased (nbdsetsize host argc n)
  unfolding nbdsetsize
  nbdsetsize-IsReleased argc none t h = ground (arith, h)
  nbdsetsize-IsReleased argc (some n) t h =
      ground (arith, h, eqb_refl (host.answer t (open_file 1)))

  loop_get_status_null-IsReleased :
      (argc : ℕ) (is_64 : Bool) → IsReleased (loop_get_status_null host argc is_64)
  unfolding loop_get_status_null
  loop_get_status_null-IsReleased argc is_64 t h =
      ground (arith, h, eqb_refl (host.answer t (open_file 1)))

  lbmd_query-IsReleased : (argc : ℕ) → IsReleased (lbmd_query host argc)
  unfolding lbmd_query
  lbmd_query-IsReleased argc t h = ground (arith, h, eqb_refl (host.answer t (open_file 1)))

  zbdioctl-IsReleased : (argc : ℕ) (name : RequestName) → IsReleased (zbdioctl host argc name)
  unfolding zbdioctl
  zbdioctl-IsReleased argc name t h = ground (arith, h, eqb_refl (host.answer t (open_file 2)))

  dxfer_from_dev-IsReleased : (argc : ℕ) → IsReleased (dxfer_from_dev host argc)
  unfolding dxfer_from_dev
  dxfer_from_dev-IsReleased argc t h = ground (arith, h, eqb_refl (host.answer t (open_file 1)))

  open_and_close-IsReleased : (n : ℕ) → IsReleased (open_and_close host n)
  unfolding open_and_close
  open_and_close-IsReleased zero t h = h
  open_and_close-IsReleased (suc left) t h =
      let fd = host.answer t (open_file 1) in
      let t1 : List Event = record { call = open_file 1; answer = fd } ∷ t in
      let t2 : List Event =
        record { call = close_file fd; answer = host.answer t1 (close_file fd) } ∷ t1 in
      let closed : held t2 ≡ [] = ground (arith, h, eqb_refl fd) in
      ground (arith, h, closed, eqb_refl fd, open_and_close-IsReleased left t2 closed)

  openclose-IsReleased : (argc : ℕ) (n : ℤ) → IsReleased (openclose host argc n)
  unfolding openclose
  openclose-IsReleased argc n t h = ground (arith, h, open_and_close-IsReleased (repeats n) t h)

  -- What is held when the ring is set up.
  abbrev all_three : ℤ → ℤ → List Resource
  all_three fd nctrl = ring ∷ memory nctrl ∷ (if is_neg fd then [] else descriptor fd ∷ [])

  freed :
      (fd nctrl ret : ℤ) (res : Option ℤ) (t : List Event)
      → held t ≡ all_three fd nctrl
      → held (seen host res (perform host ring_exit (λ done. free_nctrl host fd nctrl ret)) t).trace
        ≡ []
  freed fd nctrl ret none t h = ground (arith, h, eqb_refl fd, eqb_refl nctrl)
  freed fd nctrl ret (some r) t h = ground (arith, h, eqb_refl fd, eqb_refl nctrl)

  send_identify-IsReleased :
      (fd nctrl : ℤ) (t : List Event)
      → held t ≡ all_three fd nctrl
      → held (send_identify host fd nctrl t).trace ≡ []
  unfolding send_identify
  send_identify-IsReleased fd nctrl t h =
      let sent = ring_submit (identify fd nctrl) in
      let t1 : List Event = record { call = sent; answer = host.answer t sent } ∷ t in
      let ret = host.answer t1 ring_wait in
      let t2 : List Event = record { call = ring_wait; answer = ret } ∷ t1 in
      freed fd nctrl (uring_result ret (host.cqe_res t2)) (host.cqe_res t2) t2 h

  nvme_passthru_admin_uring-IsReleased :
      (argc : ℕ) → IsReleased (nvme_passthru_admin_uring host argc)
  unfolding nvme_passthru_admin_uring
  nvme_passthru_admin_uring-IsReleased argc t h =
      let fd = host.answer t (open_file 1) in
      let t1 : List Event = record { call = open_file 1; answer = fd } ∷ t in
      let nctrl = host.answer t1 (calloc 4096) in
      let t2 : List Event = record { call = calloc 4096; answer = nctrl } ∷ t1 in
      let t3 : List Event =
        record { call = ring_init 80; answer = host.answer t2 (ring_init 80) } ∷ t2 in
      elim (Bool-cases (is_neg fd)) [
        | inl refused ↦ ground (arith, h, refused)
        | inr is_open ↦ elim (Bool-cases (eqb nctrl (pos 0))) [
          | inl refused ↦ ground (arith, h, refused, is_open, eqb_refl fd)
          | inr given ↦ elim (Bool-cases (is_neg (host.answer t2 (ring_init 80)))) [
            | inl refused ↦ ground (arith, h, refused, given, is_open, eqb_refl fd, eqb_refl nctrl)
            | inr ready ↦
                let all : held t3 ≡ all_three fd nctrl = rw (ready, given, is_open, h) refl in
                ground (arith, h, ready, given, is_open, send_identify-IsReleased fd nctrl t3 all)
          ]
        ]
      ]

-- Whatever the system answers and whatever the arguments are, each of these programs ends with nothing
-- held: every descriptor that it has opened is closed, and the memory and the ring are given back.
pub programs_release :
    (host : Host) (argc : ℕ) (given : Option ℕ) (is_64 : Bool) (name : RequestName) (n : ℤ)
    → (held (loblksize host argc given []).trace ≡ [])
      × (held (nbdsetsize host argc given []).trace ≡ [])
      × (held (loop_get_status_null host argc is_64 []).trace ≡ [])
      × (held (lbmd_query host argc []).trace ≡ [])
      × (held (zbdioctl host argc name []).trace ≡ [])
      × (held (dxfer_from_dev host argc []).trace ≡ [])
      × (held (openclose host argc n []).trace ≡ [])
      × (held (nvme_passthru_admin_uring host argc []).trace ≡ [])
programs_release host argc given is_64 name n = (
  loblksize-IsReleased host argc given [] refl,
  nbdsetsize-IsReleased host argc given [] refl,
  loop_get_status_null-IsReleased host argc is_64 [] refl,
  lbmd_query-IsReleased host argc [] refl,
  zbdioctl-IsReleased host argc name [] refl,
  dxfer_from_dev-IsReleased host argc [] refl,
  openclose-IsReleased host argc n [] refl,
  nvme_passthru_admin_uring-IsReleased host argc [] refl,
)
