-- ===== src/Miniublk/Setup/Release.antt =====
-- `ublk_queue_deinit`: what a queue takes of the system, and what it gives back.
pub mod Counting
pub mod Balance
use ndt.Base.{
  ℕ, zero, suc, ◌+◌, ◌-◌, ◌*◌, ltb, ◌==◌, bit_and, Bool, true, false, not, ◌&&◌, if◌then◌else◌,
}
use ndt.Base.{ℤ, pos, is_neg, eqb, Option, none, some, List, [], ◌∷◌, ◌++◌}
use ndt.Miniublk.Abi.{Abi}
use ndt.Miniublk.Types.{UblkIo, Target, UblkQueue}
use ndt.Miniublk.Setup.{QueueHost, init_ios, ublk_queue_init}

-- The mapping of the commands with its size, a buffer, and the ring with its descriptor.
pub data Part : Type 0 where
  commands buffer ring : ℕ → Part

-- `unmapped_nothing` is munmap of MAP_FAILED.
pub data Effect : Type 0 where
  took gave : Part → Effect
  unmapped_nothing : Effect

-- `io_cmd_buf`, which is not null but MAP_FAILED where the mapping fails.
pub data Mapping : Type 0 where
  map_failed mapped : Mapping

-- The fields of the queue that `ublk_queue_deinit` looks at, besides its ios; no ring is 0.
pub record Kept : Type 0 where
  pub io_cmd_buf : Mapping
  pub ring_fd : ℕ

-- For a power of two; `a & ~b` is `a` less the bits that it shares with `b`.
unfoldable pub round_up : ℕ → ℕ → ℕ
round_up val rnd = let sum = val + (rnd - 1) in sum - bit_and sum (rnd - 1)

-- With the size of `struct ublksrv_io_desc` and of a page.
unfoldable pub cmd_buf_sz : ℕ → ℕ → ℕ → ℕ
unfolding round_up
cmd_buf_sz desc_size page_sz depth = round_up (depth * desc_size) page_sz

-- The buffers that the loop of `ublk_queue_init` allocates, up to the first that it cannot have.
unfoldable pub allocated : (ℕ → Option ℕ) → ℕ → ℕ → List Effect
allocated memalign zero i = []
allocated memalign (suc left) i = elim (memalign i) [
  | none ↦ []
  | some a ↦ took (buffer a) ∷ allocated memalign left (i + 1)
]

-- The null pointer is not freed.
unfoldable pub freed_from : (ℕ → UblkIo) → ℕ → ℕ → List Effect
freed_from ios zero i = []
freed_from ios (suc left) i =
    let a = (ios i).buf_addr in
    let rest = freed_from ios left (i + 1) in if a == 0 then rest else gave (buffer a) ∷ rest

module _ (size : ℕ → ℕ) where
  abbrev unmap : Mapping → ℕ → Effect
  unmap map_failed depth = unmapped_nothing
  unmap mapped depth = gave (commands (size depth))

  unfoldable pub ublk_queue_deinit : Kept → UblkQueue → List Effect
  unfolding freed_from
  ublk_queue_deinit kept q =
      (if ltb 0 kept.ring_fd then gave (ring kept.ring_fd) ∷ [] else [])
      ++ unmap kept.io_cmd_buf q.q_depth ∷ freed_from q.ios q.q_depth 0

  module _ (abi : Abi) (q : UblkQueue) (depth : ℕ) (tgt : Target) (host : QueueHost) where
    -- What `ublk_queue_init` takes, and what it has set, where it succeeds or goes to `fail`.
    unfoldable pub taken : ℕ → List Effect × Kept
    unfolding allocated
    taken ring_fd = elim host.mapped [
      | none ↦ ([], record { io_cmd_buf = map_failed; ring_fd = 0 })
      | some buf ↦
          let buffers = took (commands (size depth)) ∷ allocated host.memalign depth 0 in
          if (init_ios host.memalign depth 0 q.ios).0 && not (is_neg host.ring_ret)
          then (
            buffers ++ took (ring ring_fd) ∷ [],
            record { io_cmd_buf = mapped; ring_fd = ring_fd },
          )
          else (buffers, record { io_cmd_buf = mapped; ring_fd = 0 })
    ]

    -- All effects of `ublk_queue_init`, with those at `fail`.
    unfoldable pub init_effects : ℕ → List Effect
    unfolding taken ublk_queue_deinit
    init_effects ring_fd =
        let (ret, made) = ublk_queue_init abi q depth tgt host in
        let (effects, kept) = taken ring_fd in
        if eqb ret (pos 0) then effects else effects ++ ublk_queue_deinit kept made

    -- And with those of `ublk_queue_deinit` at the end of the thread, for a queue that was set up and
    -- still has the buffers, the mapping and the ring of its setup.
    unfoldable pub queue_effects : ℕ → List Effect
    unfolding init_effects taken ublk_queue_deinit
    queue_effects ring_fd =
        let (ret, made) = ublk_queue_init abi q depth tgt host in
        if eqb ret (pos 0)
        then init_effects ring_fd ++ ublk_queue_deinit (taken ring_fd).1 made
        else init_effects ring_fd
