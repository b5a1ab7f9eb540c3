-- ===== src/Miniublk/World/Counting.antt =====
-- The two counters are exact: no more entries than tags, so they never wrap.
use ndt.Base.{ℕ, zero, suc, ◌+◌, ◌≤◌, ◌<◌, ◌≡◌, refl, sym, arith, true, ◌==◌, bit}
use ndt.Base.{List, [], ◌∷◌, All, length, Bool-cases, inl, inr}
use ndt.Miniublk.Abi.{Abi}
use ndt.Miniublk.UserData.{user_data_to_tag}
use ndt.Miniublk.Types.{Target, Slot, stale, io_cmd, file_io}
use ndt.Miniublk.Queue.{ublk_queue_is_done}
use ndt.Miniublk.Ledger.{IsFilled, slot_user_data, busy, cmds, files}
use ndt.Base.{pos, some, Bool}
use ndt.Miniublk.Abi.{IsLinux}
use ndt.Miniublk.Types.{UblksrvIoDesc, UblkQueue}
use ndt.Miniublk.Ledger.{IsServable}
use ndt.Miniublk.Queue.{ublk_queue_depth, ublk_submit_fetch_commands}
use ndt.Miniublk.Setup.{QueueHost, ublk_queue_init}
use ndt.Miniublk.Setup.Fresh.{ublk_queue_init-IsFresh}
use ndt.Miniublk.World.{World, Reach, Balanced}
use ndt.Miniublk.World.Safety.{Reach-Balanced}
use ndt.Miniublk.World.Start.{started-Balanced}

-- The sum of `f` below `n`.
total : ℕ → (ℕ → ℕ) → ℕ
total zero f = 0
total (suc n) f = total n f + f n

total-zero : (n : ℕ) → total n (λ t. 0) ≡ 0
unfolding total
total-zero zero = refl
total-zero (suc n) = omega (arith, total-zero n)

total-point_out : (n a : ℕ) (f : ℕ → ℕ) → n ≤ a → total n (λ t. bit (a == t) + f t) ≡ total n f
unfolding total
total-point_out zero a f h = refl
total-point_out (suc n) a f h = ground (arith, total-point_out n a f)

total-point : (n a : ℕ) (f : ℕ → ℕ) → a < n → total n (λ t. bit (a == t) + f t) ≡ suc (total n f)
unfolding total
total-point zero a f h = absurd (omega arith)
total-point (suc n) a f h = elim (Bool-cases (a == n)) [
  | inl last ↦ ground (arith, total-point_out n a f)
  | inr below ↦ ground (arith, total-point n a f)
]

total-add : (n : ℕ) (f g : ℕ → ℕ) → total n f + total n g ≡ total n (λ t. f t + g t)
unfolding total
total-add zero f g = refl
total-add (suc n) f g = omega (arith, total-add n f g)

total-le : (n : ℕ) (f : ℕ → ℕ) → ((t : ℕ) → t < n → f t ≤ 1) → total n f ≤ n
unfolding total
total-le zero f h = omega arith
total-le (suc n) f h = omega (arith, h n (omega arith), total-le n f (λ t k. h t (omega arith)))

tag_below :
    (depth : ℕ) (tgt : Target) (s : Slot)
    → IsFilled depth tgt s
    → user_data_to_tag (slot_user_data s) < depth
tag_below depth tgt stale h = absurd h
tag_below depth tgt (io_cmd c) h = h.0
tag_below depth tgt (file_io f) h = h.0

-- Entries that are filled in are counted tag by tag.
length-eq-total :
    (depth : ℕ) (tgt : Target) (l : List Slot)
    → All (IsFilled depth tgt) l
    → length l ≡ total depth (λ t. busy t l)
length-eq-total depth tgt [] h = sym (total-zero depth)
length-eq-total depth tgt (s ∷ l) h = omega (
  arith,
  total-point depth (user_data_to_tag (slot_user_data s)) (λ t. busy t l)
      (tag_below depth tgt s h.0),
  length-eq-total depth tgt l h.1,
)

length-split :
    (depth : ℕ) (tgt : Target) (l : List Slot)
    → All (IsFilled depth tgt) l
    → length l ≡ cmds l + files l
length-split depth tgt [] h = refl
length-split depth tgt (stale ∷ l) h = absurd (h.0)
length-split depth tgt (io_cmd c ∷ l) h = omega (arith, length-split depth tgt l h.1)
length-split depth tgt (file_io f ∷ l) h = omega (arith, length-split depth tgt l h.1)

module _ (abi : Abi) (depth : ℕ) (tgt : Target) (w : World) (b : Balanced abi depth tgt w) where
  -- With balanced books there are at most as many entries as tags.
  entries_le_depth : length ((w.queue).sq) + length w.outstanding ≤ depth
  entries_le_depth = omega (
    arith,
    length-eq-total depth tgt (w.queue).sq b.sq_filled,
    length-eq-total depth tgt w.outstanding b.out_filled,
    total-add depth (λ t. busy t (w.queue).sq) (λ t. busy t w.outstanding),
    total-le depth (λ t. busy t (w.queue).sq + busy t w.outstanding)
        (λ t h. omega (arith, b.one t h)),
  )

  -- With balanced books the counters are exact, and together they are at most the queue's depth.
  balanced_counters :
      ((w.queue).cmd_inflight ≡ cmds ((w.queue).sq) + cmds w.outstanding)
      × ((w.queue).io_inflight ≡ files ((w.queue).sq) + files w.outstanding)
      × ((w.queue).cmd_inflight + (w.queue).io_inflight ≤ depth)
  balanced_counters = omega (
    arith,
    entries_le_depth,
    b.fits,
    b.cmds_counted,
    b.files_counted,
    length-split depth tgt (w.queue).sq b.sq_filled,
    length-split depth tgt w.outstanding b.out_filled,
  )

  -- With balanced books, a queue that is done is stopping, has submitted all its entries, and no I/O
  -- on the backing file is outstanding.
  pub done_quiet :
      ublk_queue_is_done w.queue ≡ true
      → ((w.queue).state.stopping ≡ true) × ((w.queue).sq ≡ []) × (files w.outstanding ≡ 0)
  unfolding ublk_queue_is_done
  done_quiet d = (ground arith, ground arith, ground (arith, balanced_counters.1))

module _ (abi : Abi) (has_room : List Slot → Bool) (linux : IsLinux abi) where
  -- After a setup that succeeds and the first commands, for a queue of at most 128 entries, with no
  -- file I/O counted before, a driver that describes servable requests only and a ring with room for
  -- as many entries as the queue is deep: at any point of a run both counters are the numbers of
  -- commands and of file I/Os that are queued or outstanding, and together at most the queue's depth.
  pub counters_exact :
      (q0 : UblkQueue) (depth : ℕ) (tgt : Target) (host : QueueHost) (q' : UblkQueue) (w : World)
      → depth ≤ ublk_queue_depth
      → q0.io_inflight ≡ 0
      → ((buf : ℕ → UblksrvIoDesc) (t : ℕ) → host.mapped ≡ some buf → IsServable abi tgt (buf t))
      → let (ret, q) = ublk_queue_init abi q0 depth tgt host in
        ret ≡ pos 0
        → ((sq : List Slot) → length sq < q.q_depth → has_room sq ≡ true)
        → ublk_submit_fetch_commands abi has_room q ≡ some q'
        → Reach abi has_room (record { queue = q'; outstanding = [] }) w
        → ((w.queue).cmd_inflight ≡ cmds ((w.queue).sq) + cmds w.outstanding)
          × ((w.queue).io_inflight ≡ files ((w.queue).sq) + files w.outstanding)
          × ((w.queue).cmd_inflight + (w.queue).io_inflight ≤ q.q_depth)
  counters_exact q0 depth tgt host q' w deep quiet serves ok room sent run =
      let q = (ublk_queue_init abi q0 depth tgt host).1 in
      let fresh =
        ublk_queue_init-IsFresh abi q0 depth tgt host linux.enomem_pos deep quiet serves ok in
      let start = started-Balanced abi has_room linux q q' fresh room sent in
      balanced_counters abi q.q_depth q.tgt w
        (Reach-Balanced abi has_room linux q.q_depth q.tgt start run)
