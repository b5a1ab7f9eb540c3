-- ===== src/Miniublk/Setup/Fetching.antt =====
-- A queue that was set up hands every io to the driver.
use ndt.Base.{ℕ, zero, suc, ◌+◌, ◌%◌, ◌^◌, ◌≤◌, ◌<◌, ◌≡◌, refl, arith}
use ndt.Base.{Bool, true, false, lt→ltb, ℤ, pos, some}
use ndt.Base.{List, [], ◌∷◌, length, subst}
use ndt.Miniublk.Abi.{Abi, IsLinux}
use ndt.Miniublk.UserData.{Decodes, build_user_data, build_user_data-Decodes}
use ndt.Miniublk.Types.{Target, Slot, io_cmd, UblkQueue}
use ndt.Miniublk.Queue.{
  get_io, set_flags, no_flags, ublk_queue_depth, cmd_for, ublk_queue_io_cmd, submit_fetch_from,
  ublk_submit_fetch_commands,
}
use ndt.Miniublk.Ledger.{Ledger, nobody}
use ndt.Miniublk.Setup.Fresh.{IsFresh}
use ndt.Miniublk.Setup.{fetch_flags}

fresh-Ledger :
    (abi : Abi) (q : UblkQueue) → IsFresh abi q → Ledger abi q.q_depth q.tgt nobody 0 q []
fresh-Ledger abi q f = record {
  fits = f.in_bounds;
  depth_fixed = refl;
  tgt_fixed = refl;
  sq_filled = rw f.no_entries tt;
  out_filled = tt;
  one = λ t h. simp f.no_entries (ground (arith, f.to_fetch t h));
  cmds_counted = simp f.no_entries (omega (arith, f.no_cmds));
  files_counted = simp f.no_entries (omega (arith, f.no_files));
  servable = f.servable;
}

module _ (abi : Abi) (has_room : List Slot → Bool) (linux : IsLinux abi) where
  issue_fetch : UblkQueue → ℕ → ℕ → UblkQueue
  issue_fetch q tag word = record (set_flags q tag no_flags) {
    sq = io_cmd (cmd_for abi has_room q (q.ios tag) tag word) ∷ q.sq;
    cmd_inflight = (q.cmd_inflight + 1) % 2 ^ 32;
  }

  issue_fetch-returns :
      (q : UblkQueue) (tag : ℕ) (word : ℕ)
      → (q.ios tag).flags ≡ fetch_flags
      → has_room q.sq ≡ true
      → build_user_data tag abi.fetch_req 0 0 ≡ some word
      → ublk_queue_io_cmd abi has_room q (q.ios tag) tag ≡ some (pos 1, issue_fetch q tag word)
  unfolding ublk_queue_io_cmd issue_fetch
  issue_fetch-returns q tag word f room e = ground arith

  issue_fetch-Ledger :
      (depth : ℕ) (tgt : Target) (q : UblkQueue) (tag word : ℕ)
      → tag < depth
      → (q.ios tag).flags ≡ fetch_flags
      → Decodes word tag abi.fetch_req false
      → Ledger abi depth tgt nobody 0 q []
      → Ledger abi depth tgt nobody 0 (issue_fetch q tag word) []
  unfolding issue_fetch set_flags
  issue_fetch-Ledger depth tgt q tag word below f d b = record {
    fits = b.fits;
    depth_fixed = b.depth_fixed;
    tgt_fixed = b.tgt_fixed;
    sq_filled = (
      (unfold cmd_for in ground (arith, d.tag_back), unfold cmd_for in d.target_back),
      b.sq_filled,
    );
    out_filled = tt;
    one = λ t h. unfold cmd_for in ground (arith, b.one t h, d.tag_back);
    cmds_counted = omega (arith, b.cmds_counted);
    files_counted = omega (arith, b.files_counted);
    servable = b.servable;
  }

  -- The queue after the loop has come to index `i`.
  record Progress (depth : ℕ) (tgt : Target) (i : ℕ) (q : UblkQueue) : Type 0 where
    books : Ledger abi depth tgt nobody 0 q []
    queued : length q.sq ≡ i
    waiting : (t : ℕ) → i ≤ t → t < depth → (q.ios t).flags ≡ fetch_flags
    issued : (t : ℕ) → t < i → (q.ios t).flags.io_free ≡ false

  issue_fetch-Progress :
      (depth : ℕ) (tgt : Target) (i : ℕ) (q : UblkQueue) (word : ℕ)
      → i < depth
      → Decodes word i abi.fetch_req false
      → Progress depth tgt i q
      → Progress depth tgt (i + 1) (issue_fetch q i word)
  issue_fetch-Progress depth tgt i q word below d p = record {
    books = issue_fetch-Ledger depth tgt q i word below (p.waiting i (omega arith) below) d p.books;
    queued = unfold issue_fetch in omega (arith, p.queued);
    waiting = λ t l u. unfold issue_fetch set_flags in ground (arith, p.waiting t (omega arith) u);
    issued = λ t l. unfold issue_fetch set_flags in ground (arith, p.issued t);
  }

  fetch_step :
      (left i : ℕ) (q q' : UblkQueue) (r : ℤ)
      → i < ublk_queue_depth
      → ublk_queue_io_cmd abi has_room q (q.ios i) i ≡ some (r, q')
      → submit_fetch_from abi has_room (suc left) i q
        ≡ submit_fetch_from abi has_room left (i + 1) q'
  unfolding submit_fetch_from get_io
  fetch_step left i q q' r below e = rw (lt→ltb i ublk_queue_depth below) (rw e)

  submit_fetch_from-Progress :
      (depth : ℕ) (tgt : Target) (left i : ℕ) (q : UblkQueue)
      → i + left ≡ depth
      → ((sq : List Slot) → length sq < depth → has_room sq ≡ true)
      → Progress depth tgt i q
      → (q' : UblkQueue) × (submit_fetch_from abi has_room left i q ≡ some q')
        × Progress depth tgt depth q'
  submit_fetch_from-Progress depth tgt zero i q e room p =
      (q, unfold submit_fetch_from in refl, subst (λ n. Progress depth tgt n q) (omega arith) p)
  submit_fetch_from-Progress depth tgt (suc left) i q e room p =
      let below : i < depth = omega arith in
      let in_array : i < ublk_queue_depth = omega (arith, (p.books).fits) in
      let (word, w, d) =
        build_user_data-Decodes i abi.fetch_req 0 false (omega arith) linux.fetch_req_fits
          (omega arith) in
      let sent =
        issue_fetch-returns q i word (p.waiting i (omega arith) below)
          (room q.sq (omega (arith, p.queued))) w in
      let (q', k, p') =
        submit_fetch_from-Progress depth tgt left (i + 1) (issue_fetch q i word) (omega arith) room
          (issue_fetch-Progress depth tgt i q word below d p) in
      (q', rw (fetch_step left i q _ _ in_array sent) k, p')

  -- If the ring has room while it holds fewer entries than the queue is deep, a queue that was set up
  -- sends a command for every io: the books balance, one entry per io waits for submission, and no io
  -- is free.
  pub ublk_submit_fetch_commands_all :
      (q : UblkQueue)
      → ((sq : List Slot) → length sq < q.q_depth → has_room sq ≡ true)
      → IsFresh abi q
      → (q' : UblkQueue) × (ublk_submit_fetch_commands abi has_room q ≡ some q')
        × Ledger abi q.q_depth q.tgt nobody 0 q' []
        × (length q'.sq ≡ q.q_depth)
        × ((t : ℕ) → t < q.q_depth → (q'.ios t).flags.io_free ≡ false)
  unfolding ublk_submit_fetch_commands
  ublk_submit_fetch_commands_all q room f =
      let start : Progress q.q_depth q.tgt 0 q = record {
        books = fresh-Ledger abi q f;
        queued = rw f.no_entries;
        waiting = λ t l u. f.to_fetch t u;
        issued = λ t l. absurd (omega arith);
      } in
      let (q', k, p) =
        submit_fetch_from-Progress q.q_depth q.tgt q.q_depth 0 q (omega arith) room start in
      (q', k, p.books, p.queued, p.issued)
