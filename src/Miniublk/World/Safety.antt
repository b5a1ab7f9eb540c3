-- ===== src/Miniublk/World/Safety.antt =====
-- The books stay balanced along every run, so each completion can be handled.
use ndt.Base.{ℕ, ◌+◌, ◌≡◌, arith, Bool, some, List, ◌∷◌, ◌++◌, All, All-append}
use ndt.Base.{count_if, count_if-append, All-split, subst, some-injective, ◌==◌, sym, ap, ◌∙◌}
use ndt.Miniublk.Abi.{Abi, IsLinux}
use ndt.Miniublk.UserData.{user_data_to_tag}
use ndt.Miniublk.Types.{Target, Slot, UblkQueue, Cqe}
use ndt.Miniublk.Ledger.{Ledger, IsServable, IsFilled, nobody, slot_user_data, is_cmd, is_file}
use ndt.Miniublk.Engine.{ublk_handle_cqe}
use ndt.Miniublk.Engine.Handling.{ublk_handle_cqe-Balances}
use ndt.Miniublk.World.{World, Step, take, describe, complete, Reach, here, next, Balanced}

module _ (abi : Abi) (has_room : List Slot → Bool) (linux : IsLinux abi) (depth : ℕ)
    (tgt : Target) where
  module _ (w : World) (kept sent : List Slot) (e : (w.queue).sq ≡ kept ++ sent)
      (b : Balanced abi depth tgt w) where
    moved :
        (p : Slot → Bool)
        → count_if p kept + count_if p (sent ++ w.outstanding)
          ≡ count_if p ((w.queue).sq) + count_if p w.outstanding
    moved p = omega (
      arith,
      ap (count_if p) e,
      count_if-append p kept sent,
      count_if-append p sent w.outstanding,
    )

    split : All (IsFilled depth tgt) kept × All (IsFilled depth tgt) sent
    split = All-split _ kept sent (subst (All (IsFilled depth tgt)) e b.sq_filled)

    pub take-Balanced :
        Balanced abi depth tgt
          (record { queue = record (w.queue) { sq = kept }; outstanding = sent ++ w.outstanding })
    take-Balanced = record {
      fits = b.fits;
      depth_fixed = b.depth_fixed;
      tgt_fixed = b.tgt_fixed;
      sq_filled = split.0;
      out_filled = All-append _ sent w.outstanding split.1 b.out_filled;
      one = λ t h. omega (arith, b.one t h, moved (λ s. user_data_to_tag (slot_user_data s) == t));
      cmds_counted = omega (arith, b.cmds_counted, moved is_cmd);
      files_counted = omega (arith, b.files_counted, moved is_file);
      servable = b.servable;
    }

  Step-Balanced :
      {w w' : World} → Step abi has_room w w' → Balanced abi depth tgt w → Balanced abi depth tgt w'
  Step-Balanced {w} (take kept sent e) b = take-Balanced w kept sent e b
  Step-Balanced (describe buf h) b = record {
    fits = b.fits;
    depth_fixed = b.depth_fixed;
    tgt_fixed = b.tgt_fixed;
    sq_filled = b.sq_filled;
    out_filled = b.out_filled;
    one = b.one;
    cmds_counted = b.cmds_counted;
    files_counted = b.files_counted;
    servable = λ t. subst (λ g. IsServable abi g (buf t)) b.tgt_fixed (h t);
  }
  Step-Balanced {w} (complete pre s post cqe q' e u h) b =
      let books : Ledger abi depth tgt nobody 0 w.queue (pre ++ s ∷ post) =
        subst (λ o. Ledger abi depth tgt nobody 0 w.queue o) e b in
      let (q'', k, l) =
        ublk_handle_cqe-Balances abi has_room linux depth tgt w.queue pre s post cqe u books in
      subst (λ x. Ledger abi depth tgt nobody 0 x (pre ++ post)) (some-injective _ _ (sym k ∙ h)) l

  -- Whatever the kernel does, a run that starts with balanced books keeps them: each tag of the queue
  -- is in exactly one place, the free ios, a command with the driver or an I/O on the backing file,
  -- and both counters tell (modulo 2 ^ 32) how many of those there are.
  pub Reach-Balanced :
      {w w' : World}
      → Balanced abi depth tgt w
      → Reach abi has_room w w'
      → Balanced abi depth tgt w'
  Reach-Balanced b here = b
  Reach-Balanced b (next r st) = Step-Balanced st (Reach-Balanced b r)

  -- Along such a run, the completion of any outstanding entry, with any result, is handled without a
  -- failed assertion and without an access past the array of ios.
  pub Reach-handles :
      {w w' : World}
      → Balanced abi depth tgt w
      → Reach abi has_room w w'
      → (pre : List Slot) (s : Slot) (post : List Slot) (cqe : Cqe)
      → w'.outstanding ≡ pre ++ s ∷ post
      → cqe.user_data ≡ slot_user_data s
      → (q : UblkQueue) × (ublk_handle_cqe abi has_room w'.queue cqe ≡ some q)
  Reach-handles {w'} b r pre s post cqe e u =
      let (q, k, l) =
        ublk_handle_cqe-Balances abi has_room linux depth tgt w'.queue pre s post cqe u
          (subst (λ o. Ledger abi depth tgt nobody 0 w'.queue o) e (Reach-Balanced b r)) in
      (q, k)
