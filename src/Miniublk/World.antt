-- ===== src/Miniublk/World.antt =====
-- A queue thread and the kernel it talks to: the kernel takes submissions, describes requests in the
-- shared buffer, and completes what it has taken, in any order and with any result.
pub mod Safety
pub mod Counting
pub mod Draining
pub mod Rounds
pub mod Start
use ndt.Base.{ℕ, ◌≡◌, Bool, some, List, ◌∷◌, ◌++◌}
use ndt.Miniublk.Abi.{Abi}
use ndt.Miniublk.Types.{Target, UblksrvIoDesc, Slot, UblkQueue, Cqe}
use ndt.Miniublk.Ledger.{Ledger, IsServable, nobody, slot_user_data}
use ndt.Miniublk.Engine.{ublk_handle_cqe}

-- `outstanding` holds the entries that were submitted and are not completed.
pub record World : Type 0 where
  pub queue : UblkQueue
  pub outstanding : List Slot

module _ (abi : Abi) (has_room : List Slot → Bool) where
  pub data Step (w : World) : World → Type 0 where
    -- The oldest entries of the submission queue are taken.
    take :
        (kept sent : List Slot)
        → (w.queue).sq ≡ kept ++ sent
        → Step w
            (record { queue = record (w.queue) { sq = kept }; outstanding = sent ++ w.outstanding })
    -- The driver writes descriptions of requests that the target can serve.
    describe :
        (buf : ℕ → UblksrvIoDesc)
        → ((tag : ℕ) → IsServable abi ((w.queue).tgt) (buf tag))
        → Step w (record w { queue = record (w.queue) { io_cmd_buf = buf } })
    -- An entry is completed, and the thread handles the completion.
    complete :
        (pre : List Slot) (s : Slot) (post : List Slot) (cqe : Cqe) (q' : UblkQueue)
        → w.outstanding ≡ pre ++ s ∷ post
        → cqe.user_data ≡ slot_user_data s
        → ublk_handle_cqe abi has_room w.queue cqe ≡ some q'
        → Step w (record { queue = q'; outstanding = pre ++ post })

  pub data Reach (w : World) : World → Type 0 where
    here : Reach w w
    next : {v u : World} → Reach w v → Step v u → Reach w u

-- The books of a world.
abbrev pub Balanced : Abi → ℕ → Target → World → Type 0
Balanced abi depth tgt w = Ledger abi depth tgt nobody 0 w.queue w.outstanding
