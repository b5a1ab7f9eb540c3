-- ===== src/Miniublk/World/Draining/Ending.antt =====
-- A queue that stops comes to its end, once the driver gives up all commands.
use ndt.Base.{ℕ, zero, suc, ◌+◌, ◌≤◌, ◌<◌, ◌≡◌, ◌⊎◌, inl, inr, refl, ap, arith}
use ndt.Base.{Bool, true, false, bit, subst}
use ndt.Base.{List, [], ◌∷◌, ◌++◌, All, All-middle, eqb}
use ndt.Miniublk.Abi.{Abi, IsLinux}
use ndt.Miniublk.Types.{Target, Slot, stale, io_cmd, file_io}
use ndt.Miniublk.Queue.{ublk_queue_is_done}
use ndt.Miniublk.Ledger.{IsFilled, is_cmd, busy, cmds, files}
use ndt.Miniublk.Engine.{}
use ndt.Miniublk.World.{World, take, complete, Reach, here, next, Balanced}
use ndt.Miniublk.World.Draining.{cost, costs, last_cqe, last_cqe-eq, handled}
use ndt.Miniublk.World.Safety.{Reach-Balanced}

first_command :
    (l : List Slot)
    → 0 < cmds l
    → (pre : List Slot) × (s : Slot) × (post : List Slot) × (l ≡ pre ++ s ∷ post)
      × (is_cmd s ≡ true)
first_command [] h = absurd (omega arith)
first_command (io_cmd c ∷ l) h = ([], io_cmd c, l, refl, refl)
first_command (stale ∷ l) h =
    let (pre, s, post, e, k) = first_command l (omega (arith, h)) in
    (stale ∷ pre, s, post, ap (λ t. stale ∷ t) e, k)
first_command (file_io f ∷ l) h =
    let (pre, s, post, e, k) = first_command l (omega (arith, h)) in
    (file_io f ∷ pre, s, post, ap (λ t. file_io f ∷ t) e, k)

module _ (abi : Abi) (has_room : List Slot → Bool) (linux : IsLinux abi)
    (abort_differs : eqb abi.io_res_abort abi.io_res_ok ≡ false) where
  Reach-trans :
      {w v u : World} → Reach abi has_room w v → Reach abi has_room v u → Reach abi has_room w u
  Reach-trans r here = r
  Reach-trans r (next more st) = next (Reach-trans r more) st

  -- What a queue has come to that is done and has nothing outstanding.
  pub record IsDrained (depth : ℕ) (tgt : Target) (w : World) : Type 0 where
    pub is_done : ublk_queue_is_done w.queue ≡ true
    pub nothing_left : w.outstanding ≡ []
    pub all_free : (tag : ℕ) → tag < depth → ((w.queue).ios tag).flags.io_free ≡ true

  module _ (depth : ℕ) (tgt : Target) where
    rested :
        (w : World)
        → Balanced abi depth tgt w
        → (w.queue).state.stopping ≡ true
        → (w.queue).sq ≡ []
        → w.outstanding ≡ []
        → IsDrained depth tgt w
    rested w b stops none_queued none_out = record {
      is_done = unfold ublk_queue_is_done in (rw (stops, none_queued, nothing_inflight) refl);
      nothing_left = none_out;
      all_free = λ tag below.
          bit_one _ (omega (arith, b.one tag below, unbusy tag none_queued, unbusy tag none_out));
    }
      where
        unbusy : (tag : ℕ) {l : List Slot} → l ≡ [] → busy tag l ≡ 0
        unbusy tag e = rw e refl

        nothing_inflight : (w.queue).io_inflight ≡ 0
        nothing_inflight = omega (arith, b.files_counted, ap files none_queued, ap files none_out)

        bit_one : (x : Bool) → bit x ≡ 1 → x ≡ true
        bit_one true h = refl
        bit_one false h = absurd (omega (arith, h))

    -- All entries that wait to be submitted are taken.
    emptied : World → World
    emptied w = record {
      queue = record (w.queue) { sq = [] };
      outstanding = (w.queue).sq ++ w.outstanding;
    }

    emptied-Reach : (w : World) → Reach abi has_room w (emptied w)
    unfolding emptied
    emptied-Reach w = next here (take [] (w.queue).sq refl)

    costs-append : (xs ys : List Slot) → costs (xs ++ ys) ≡ costs xs + costs ys
    costs-append [] ys = omega arith
    costs-append (s ∷ xs) ys = omega (arith, costs-append xs ys)

    cost_pos : (s : Slot) → 0 < cost s
    cost_pos stale = omega arith
    cost_pos (io_cmd c) = omega arith
    cost_pos (file_io f) = omega arith

    -- An outstanding entry is completed, and what its handler queued is taken.
    one_step :
        (w : World) (pre : List Slot) (s : Slot) (post : List Slot)
        → Balanced abi depth tgt w
        → ((w.queue).state.stopping ≡ true) ⊎ (is_cmd s ≡ true)
        → w.outstanding ≡ pre ++ s ∷ post
        → (w' : World) × Reach abi has_room w w'
          × ((w'.queue).state.stopping ≡ true)
          × ((w'.queue).sq ≡ [])
          × (costs w'.outstanding < costs ((w.queue).sq) + costs w.outstanding)
    one_step w pre s post b stops e =
        let filled =
          (All-middle _ pre s post (subst (All (IsFilled depth tgt)) e b.out_filled)).0 in
        let h =
          handled abi has_room linux abort_differs depth tgt w.queue s b.fits b.tgt_fixed filled
            stops in
        let v : World = record { queue = h.after; outstanding = pre ++ post } in
        (
          emptied v,
          Reach-trans
              (next here (
                complete pre s post (last_cqe abi has_room linux abort_differs s) h.after e
                  (last_cqe-eq abi has_room linux abort_differs s) h.returns))
              (emptied-Reach v),
          unfold emptied in h.stopping,
          unfold emptied in refl,
          unfold emptied in
              omega (
                arith,
                h.fewer,
                costs-append h.after.sq (pre ++ post),
                costs-append pre post,
                costs-append pre (s ∷ post),
                ap costs e,
              ),
        )

    drain :
        (n : ℕ) (w : World) (out : List Slot)
        → w.outstanding ≡ out
        → Balanced abi depth tgt w
        → (w.queue).state.stopping ≡ true
        → (w.queue).sq ≡ []
        → costs out ≤ n
        → (w' : World) × Reach abi has_room w w' × IsDrained depth tgt w'
    drain n w [] e b stops queued few = (w, here, rested w b stops queued e)
    drain zero w (s ∷ post) e b stops queued few = absurd (omega (arith, few, cost_pos s))
    drain (suc n) w (s ∷ post) e b stops queued few =
        let (v, r, stopping, none_queued, fewer) = one_step w [] s post b (inl stops) e in
        let (u, r', drained) =
          drain n v v.outstanding refl (Reach-Balanced abi has_room linux depth tgt b r) stopping
            none_queued (omega (arith, fewer, few, ap costs queued, ap costs e)) in
        (u, Reach-trans r r', drained)

    drain_all :
        (w : World)
        → Balanced abi depth tgt w
        → (w.queue).state.stopping ≡ true
        → (w' : World) × Reach abi has_room w w' × IsDrained depth tgt w'
    drain_all w b stops =
        let b' = Reach-Balanced abi has_room linux depth tgt b (emptied-Reach w) in
        let (u, r, drained) =
          drain (costs (emptied w).outstanding) (emptied w) (emptied w).outstanding refl b'
            (unfold emptied in stops) (unfold emptied in refl) (omega arith) in
        (u, Reach-trans (emptied-Reach w) r, drained)

    -- From balanced books, where the queue is stopping or a command is with the driver, the kernel can
    -- go on such that the queue is done, no entry is outstanding and every io is free.
    pub drains :
        (w : World)
        → Balanced abi depth tgt w
        → ((w.queue).state.stopping ≡ true) ⊎ (0 < cmds w.outstanding)
        → (w' : World) × Reach abi has_room w w' × IsDrained depth tgt w'
    drains w b (inl stops) = drain_all w b stops
    drains w b (inr some_command) =
        let (pre, s, post, e, cmd) = first_command w.outstanding some_command in
        let (v, r, stopping, none_queued, fewer) = one_step w pre s post b (inr cmd) e in
        let (u, r', drained) =
          drain_all v (Reach-Balanced abi has_room linux depth tgt b r) stopping in
        (u, Reach-trans r r', drained)
