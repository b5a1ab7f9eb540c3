-- ===== src/Miniublk/Setup/Fresh.antt =====
-- What `ublk_queue_init` leaves when it succeeds.
use ndt.Base.{ℕ, zero, suc, ◌+◌, ◌≤◌, ◌<◌, ◌≡◌, ◌≢◌, refl, arith, inl, inr, Bool-cases}
use ndt.Base.{true, false, not, ◌&&◌, ◌==◌, update, pos, neg, is_neg, eqb, Option, none, some}
use ndt.Base.{[], sym, ◌∙◌, ==→eq, &&_split, Option-cases}
use ndt.Miniublk.Abi.{Abi}
use ndt.Miniublk.Types.{UblkIo, UblksrvIoDesc, Target, UblkQueue}
use ndt.Miniublk.Queue.{ublk_queue_depth}
use ndt.Miniublk.Ledger.{IsServable}
use ndt.Miniublk.Setup.{QueueHost, fetch_flags, init_ios, init_mapped, ublk_queue_init}

-- A queue as `ublk_queue_init` leaves it.
pub record IsFresh (abi : Abi) (q : UblkQueue) : Type 0 where
  pub in_bounds : q.q_depth ≤ ublk_queue_depth
  pub no_entries : q.sq ≡ []
  pub no_cmds : q.cmd_inflight ≡ 0
  pub no_files : q.io_inflight ≡ 0
  pub to_fetch : (t : ℕ) → t < q.q_depth → (q.ios t).flags ≡ fetch_flags
  pub servable : (t : ℕ) → IsServable abi q.tgt (q.io_cmd_buf t)

pub init_ios-some :
    (memalign : ℕ → Option ℕ) (left i a : ℕ) (ios : ℕ → UblkIo)
    → memalign i ≡ some a
    → init_ios memalign (suc left) i ios
      ≡ init_ios memalign left
          (i + 1)
          (update ios i (record (ios i) { buf_addr = a; flags = fetch_flags }))
unfolding init_ios
init_ios-some memalign left i a ios e = rw (e, init_ios)

pub init_ios-none :
    (memalign : ℕ → Option ℕ) (left i : ℕ) (ios : ℕ → UblkIo)
    → memalign i ≡ none
    → (init_ios memalign (suc left) i ios).0 ≡ false
unfolding init_ios
init_ios-none memalign left i ios e = rw (e, init_ios)

pub init_ios_before :
    (memalign : ℕ → Option ℕ) (left i : ℕ) (ios : ℕ → UblkIo) (t : ℕ)
    → t < i
    → (init_ios memalign left i ios).1 t ≡ ios t
init_ios_before memalign zero i ios t h = unfold init_ios in refl
init_ios_before memalign (suc left) i ios t h = elim (Option-cases (memalign i)) [
  | inl e ↦ unfold init_ios in (rw (e, init_ios) (ground arith))
  | inr (a, e) ↦
      rw (init_ios-some memalign left i a ios e)
        (init_ios_before memalign left (i + 1) _ t (omega arith) ∙ ground arith)
]

init_ios_fetch :
    (memalign : ℕ → Option ℕ) (left i : ℕ) (ios : ℕ → UblkIo) (t : ℕ)
    → (init_ios memalign left i ios).0 ≡ true
    → i ≤ t
    → t < i + left
    → ((init_ios memalign left i ios).1 t).flags ≡ fetch_flags
init_ios_fetch memalign zero i ios t ok h l = absurd (omega arith)
init_ios_fetch memalign (suc left) i ios t ok h l = elim (Option-cases (memalign i)) [
  | inl e ↦ absurd (absurd_bool (sym (init_ios-none memalign left i ios e) ∙ ok))
  | inr (a, e) ↦
      let next = update ios i (record (ios i) { buf_addr = a; flags = fetch_flags }) in
      rw (init_ios-some memalign left i a ios e) (elim (Bool-cases (t == i)) [
        | inl here ↦
            ground
              (arith, init_ios_before memalign left (i + 1) next t (omega (arith, ==→eq t i here)))
        | inr later ↦
            init_ios_fetch memalign left (i + 1) next t
              (rw (init_ios-some memalign left i a ios e) at ok) (ground arith) (omega arith)
      ])
]
  where
    absurd_bool : false ≡ true → ⊥
    absurd_bool e = cc

neg-ne_zero : (n : ℕ) → 0 < n → neg n ≢ pos 0
neg-ne_zero zero h e = absurd (omega arith)
neg-ne_zero (suc n) h e = cc

module _ (abi : Abi) (q : UblkQueue) (depth : ℕ) (tgt : Target) (host : QueueHost)
    (nomem : 0 < abi.enomem) where
  init_mapped-IsFresh :
      (buf : ℕ → UblksrvIoDesc)
      → depth ≤ ublk_queue_depth
      → q.io_inflight ≡ 0
      → ((t : ℕ) → IsServable abi tgt (buf t))
      → (init_mapped abi q depth tgt host buf).0 ≡ pos 0
      → IsFresh abi (init_mapped abi q depth tgt host buf).1
  unfolding init_mapped
  init_mapped-IsFresh buf deep quiet serves ok =
      elim (Bool-cases (
        (init_ios host.memalign depth 0 q.ios).0
        && not (is_neg host.ring_ret)
        && eqb host.files_ret (pos 0))) [
          | inl all ↦ simp all (record {
            in_bounds = deep;
            no_entries = refl;
            no_cmds = refl;
            no_files = quiet;
            to_fetch = λ t h.
                init_ios_fetch host.memalign depth 0 q.ios t
                  ((&&_split _ _ ((&&_split _ _ all).0)).0) (omega arith) (omega arith);
            servable = serves;
          })
          | inr failed ↦ absurd (neg-ne_zero abi.enomem nomem (simp failed at ok))
        ]

  unmapped : host.mapped ≡ none → (ublk_queue_init abi q depth tgt host).0 ≡ neg abi.enomem
  unfolding ublk_queue_init
  unmapped e = rw e

  mapped_as :
      (buf : ℕ → UblksrvIoDesc)
      → host.mapped ≡ some buf
      → ublk_queue_init abi q depth tgt host ≡ init_mapped abi q depth tgt host buf
  unfolding ublk_queue_init
  mapped_as buf e = rw e

-- When `ublk_queue_init` returns 0, for a queue of at most 128 entries with no file I/O counted and a
-- driver that describes servable requests only, the queue is fresh: nothing is queued or counted,
-- and each of its ios is free and waits to be fetched for.
pub ublk_queue_init-IsFresh :
    (abi : Abi) (q : UblkQueue) (depth : ℕ) (tgt : Target) (host : QueueHost)
    → 0 < abi.enomem
    → depth ≤ ublk_queue_depth
    → q.io_inflight ≡ 0
    → ((buf : ℕ → UblksrvIoDesc) (t : ℕ) → host.mapped ≡ some buf → IsServable abi tgt (buf t))
    → (ublk_queue_init abi q depth tgt host).0 ≡ pos 0
    → IsFresh abi (ublk_queue_init abi q depth tgt host).1
ublk_queue_init-IsFresh abi q depth tgt host nomem deep quiet serves ok =
    elim (Option-cases host.mapped) [
      | inl e ↦
          absurd (neg-ne_zero abi.enomem nomem (sym (unmapped abi q depth tgt host nomem e) ∙ ok))
      | inr (buf, e) ↦
          let m = mapped_as abi q depth tgt host nomem buf e in
          rw m (
            init_mapped-IsFresh abi q depth tgt host nomem buf deep quiet (λ t. serves buf t e)
              (rw m at ok))
    ]
