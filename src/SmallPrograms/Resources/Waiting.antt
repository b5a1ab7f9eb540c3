-- ===== src/SmallPrograms/Resources/Waiting.antt =====
-- mount_clear_sock waits for its processes, and loop_change_fd leaves a descriptor open.
use ndt.Base.{ℕ, zero, suc, ◌==◌, Bool, true, false, Bool-cases, not, ◌&&◌, if◌then◌else◌, inl, inr}
use ndt.Base.{ℤ, eqb_refl, pos, is_neg, eqb, List, [], ◌∷◌, ◌≡◌, ◌∙◌, refl, arith}
use ndt.SmallPrograms.{Host, Event, Call, open_file, fork, waitpid, failed, repeats}
use ndt.SmallPrograms.Sequences.{change_fd}
use ndt.SmallPrograms.Mount.{mount_rounds, mount_clear_sock}
use ndt.SmallPrograms.Resources.{Resource, descriptor, held}

module _ (host : Host) where
  abbrev with_call : Call → List Event → List Event
  with_call c t = record { call = c; answer = host.answer t c } ∷ t

  -- Where the device can be opened, loop_change_fd ends with its descriptor still open exactly if the
  -- file cannot be opened; otherwise it holds nothing at its end.
  change_fd-held :
      is_neg (host.answer [] (open_file 1)) ≡ false
      → held (change_fd host 3 []).trace ≡ (
          if failed (host.answer (with_call (open_file 1) []) (open_file 2))
          then descriptor (host.answer [] (open_file 1)) ∷ []
          else [])
  unfolding change_fd
  change_fd-held is_open =
      let fd = host.answer [] (open_file 1) in
      let filefd = host.answer (with_call (open_file 1) []) (open_file 2) in
      ground (arith, is_open, eqb_refl fd, eqb_refl filefd)

  abbrev IsParent : Type 0
  IsParent = (t : List Event) → eqb (host.answer t fork) (pos 0) ≡ false

  abbrev opened : ℤ → List Resource
  opened fd = if is_neg fd then [] else descriptor fd ∷ []

  abbrev after_forks : List Event → List Event
  after_forks t = with_call fork (with_call fork t)

  abbrev after_waits : List Event → List Event
  after_waits t =
      let t2 = after_forks t in
      let t3 = with_call (waitpid (host.answer t fork)) t2 in
      with_call (waitpid (host.answer (with_call fork t) fork)) t3

  -- Both processes are made, waited for, and have ended well.
  abbrev round_good : List Event → Bool
  round_good t =
      let m = host.answer t fork in
      let t1 = with_call fork t in
      let c = host.answer t1 fork in
      let t2 = with_call fork t1 in
      let t3 = with_call (waitpid m) t2 in
      let t4 = with_call (waitpid c) t3 in
      not (failed m)
      && not (failed c)
      && not (failed (host.answer t2 (waitpid m)))
      && host.exited_well t3
      && not (failed (host.answer t3 (waitpid c)))
      && host.exited_well t4

  module _ (parent : IsParent) where
    round-good :
        (left : ℕ) (fd : ℤ) (t : List Event)
        → round_good t ≡ true
        → mount_rounds host (suc left) fd t ≡ mount_rounds host left fd (after_waits t)
    unfolding mount_rounds
    round-good left fd t g = ground (arith, g, parent t, parent (with_call fork t))

    round-bad :
        (left : ℕ) (fd : ℤ) (t : List Event)
        → round_good t ≡ false
        → (mount_rounds host (suc left) fd t).status ≡ pos 1
    unfolding mount_rounds
    round-bad left fd t g = ground (arith, g, parent t, parent (with_call fork t))

    after_waits-held : (t : List Event) → round_good t ≡ true → held (after_waits t) ≡ held t
    after_waits-held t g =
        let m = host.answer t fork in
        let c = host.answer (with_call fork t) fork in
        ground (arith, g, parent t, parent (with_call fork t), eqb_refl m, eqb_refl c)

    mount_rounds-held :
        (left : ℕ) (fd : ℤ) (t : List Event)
        → held t ≡ opened fd
        → (mount_rounds host left fd t).status ≡ pos 0
        → held (mount_rounds host left fd t).trace ≡ []
    mount_rounds-held zero fd t h s = unfold mount_rounds in ground (arith, h, eqb_refl fd)
    mount_rounds-held (suc left) fd t h s = elim (Bool-cases (round_good t)) [
      | inl good ↦
          let same = round-good left fd t good in
          rw same
            (mount_rounds-held left fd (after_waits t) (after_waits-held t good ∙ h) (rw same at s))
      | inr bad ↦ absurd (ground (arith, round-bad left fd t bad, s))
    ]

    -- In the process that started it, when it returns 0, mount_clear_sock holds nothing: it has waited
    -- for each process that it has made, and closed the device.
    pub mount_clear_sock-held :
        (argc : ℕ) (loops : ℤ)
        → (mount_clear_sock host argc loops []).status ≡ pos 0
        → held (mount_clear_sock host argc loops []).trace ≡ []
    unfolding mount_clear_sock
    mount_clear_sock-held argc loops s =
        let fd = host.answer [] (open_file 1) in
        let t1 = with_call (open_file 1) [] in
        elim (Bool-cases (argc == 5)) [
          | inr other ↦ absurd (ground (arith, s, other))
          | inl five ↦ elim (Bool-cases (failed fd)) [
            | inl lost ↦ absurd (ground (arith, s, five, lost))
            | inr got ↦
                rw (five, got) (mount_rounds-held (repeats loops) fd t1 refl (rw (five, got) at s))
          ]
        ]
