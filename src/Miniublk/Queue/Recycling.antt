-- ===== src/Miniublk/Queue/Recycling.antt =====
-- What `ublk_queue_io_cmd` and `ublk_complete_io` do to a queue, field by field.
use ndt.Base.{ℕ, ◌+◌, ◌%◌, ◌^◌, ◌<◌, ◌≡◌, ◌≢◌, refl, ◌⊎◌, inl, inr, arith}
use ndt.Base.{Bool, true, false, Bool-cases, update, Option, some, List, ◌∷◌}
use ndt.Base.{ℤ, pos, negsuc, u32_of_int, int_of_u32}
use ndt.Miniublk.Abi.{Abi, IsLinux}
use ndt.Miniublk.UserData.{Decodes, build_user_data, build_user_data-Decodes}
use ndt.Miniublk.Types.{IoCmd, Slot, io_cmd, UblkQueue}
use ndt.Miniublk.Queue.{
  set_flags, ublk_queue_depth, ublk_mark_io_done, cmd_for, ublk_queue_io_cmd, ublk_complete_io,
  no_flags,
}

-- `q'` differs from `q` at most in the command at `tag`, and the number of commands in flight.
pub record SameBut (tag : ℕ) (q q' : UblkQueue) : Type 0 where
  pub same_id : q'.q_id ≡ q.q_id
  pub same_depth : q'.q_depth ≡ q.q_depth
  pub same_tgt : q'.tgt ≡ q.tgt
  pub same_buf : q'.io_cmd_buf ≡ q.io_cmd_buf
  pub same_io_inflight : q'.io_inflight ≡ q.io_inflight
  pub same_state : q'.state ≡ q.state
  pub others : (t : ℕ) → t ≢ tag → q'.ios t ≡ q.ios t

-- A command for `tag` was put into the submission queue, and the io belongs to the driver.
pub record Issued (op : ℕ) (result : Option ℤ) (tag : ℕ) (q q' : UblkQueue) : Type 0 where
  pub cmd : IoCmd
  pub queued : q'.sq ≡ io_cmd cmd ∷ q.sq
  pub counted : q'.cmd_inflight ≡ (q.cmd_inflight + 1) % 2 ^ 32
  pub owned : (q'.ios tag).flags.io_free ≡ false
  pub same_buffer : cmd.addr ≡ (q.ios tag).buf_addr
  pub for_queue : cmd.q_id ≡ q.q_id
  pub for_tag : cmd.tag ≡ tag
  pub for_op : cmd.cmd_op ≡ op
  pub for_result : cmd.result ≡ result
  pub decodes : Decodes cmd.user_data tag op false

-- There was no entry for the command: the io stays free, with what it asked for.
pub record Blocked (tag : ℕ) (q q' : UblkQueue) : Type 0 where
  pub nothing_queued : q'.sq ≡ q.sq
  pub not_counted : q'.cmd_inflight ≡ q.cmd_inflight
  pub still_free : (q'.ios tag).flags.io_free ≡ true
  pub still_asks : (q'.ios tag).flags.need_commit_rq_comp ≡ true

module _ (abi : Abi) (has_room : List Slot → Bool) (linux : IsLinux abi) where
  -- The outcome of completing the request of `tag` with `res`: a commit command that carries `res`,
  -- if there is room in the submission queue.
  pub record Recycled (tag : ℕ) (res : ℤ) (q : UblkQueue) : Type 0 where
    pub ret : ℤ
    pub after : UblkQueue
    pub returns : ublk_complete_io abi has_room q tag res ≡ some (ret, after)
    pub same : SameBut tag q after
    pub outcome :
        ((has_room q.sq ≡ true)
          × (ret ≡ pos 1)
          × Issued abi.commit_and_fetch_req (some (int_of_u32 (u32_of_int res))) tag q after)
        ⊎ ((has_room q.sq ≡ false) × (ret ≡ negsuc 0) × Blocked tag q after)

  marked : UblkQueue → ℕ → ℤ → UblkQueue
  marked q tag res = record q { ios = update q.ios tag (ublk_mark_io_done (q.ios tag) res) }

  issue_commit : UblkQueue → ℕ → ℤ → ℕ → UblkQueue
  unfolding marked
  issue_commit q tag res word = record (set_flags (marked q tag res) tag no_flags) {
    sq =
        io_cmd
          (cmd_for abi has_room (marked q tag res) (ublk_mark_io_done (q.ios tag) res) tag word)
        ∷ q.sq;
    cmd_inflight = (q.cmd_inflight + 1) % 2 ^ 32;
  }

  issue_commit-returns :
      (q : UblkQueue) (tag : ℕ) (res : ℤ) (word : ℕ)
      → tag < ublk_queue_depth
      → has_room q.sq ≡ true
      → build_user_data tag abi.commit_and_fetch_req 0 0 ≡ some word
      → ublk_complete_io abi has_room q tag res ≡ some (pos 1, issue_commit q tag res word)
  unfolding ublk_complete_io ublk_queue_io_cmd issue_commit
  issue_commit-returns q tag res word h room e = ground arith

  blocked-returns :
      (q : UblkQueue) (tag : ℕ) (res : ℤ)
      → tag < ublk_queue_depth
      → has_room q.sq ≡ false
      → ublk_complete_io abi has_room q tag res ≡ some (negsuc 0, marked q tag res)
  unfolding ublk_complete_io ublk_queue_io_cmd marked
  blocked-returns q tag res h full = ground arith

  marked-SameBut : (q : UblkQueue) (tag : ℕ) (res : ℤ) → SameBut tag q (marked q tag res)
  unfolding marked
  marked-SameBut q tag res = record {
    same_id = refl;
    same_depth = refl;
    same_tgt = refl;
    same_buf = refl;
    same_io_inflight = refl;
    same_state = refl;
    others = λ t ne. ground arith;
  }

  issue_commit-SameBut :
      (q : UblkQueue) (tag : ℕ) (res : ℤ) (word : ℕ) → SameBut tag q (issue_commit q tag res word)
  unfolding issue_commit set_flags
  issue_commit-SameBut q tag res word = record {
    same_id = refl;
    same_depth = refl;
    same_tgt = refl;
    same_buf = refl;
    same_io_inflight = refl;
    same_state = refl;
    others = λ t ne. ground arith;
  }

  marked-Blocked : (q : UblkQueue) (tag : ℕ) (res : ℤ) → Blocked tag q (marked q tag res)
  unfolding marked ublk_mark_io_done
  marked-Blocked q tag res = record {
    nothing_queued = refl;
    not_counted = refl;
    still_free = ground arith;
    still_asks = ground arith;
  }

  issue_commit-Issued :
      (q : UblkQueue) (tag : ℕ) (res : ℤ) (word : ℕ)
      → Decodes word tag abi.commit_and_fetch_req false
      → Issued abi.commit_and_fetch_req
          (some (int_of_u32 (u32_of_int res)))
          tag
          q
          (issue_commit q tag res word)
  unfolding issue_commit set_flags cmd_for ublk_mark_io_done
  issue_commit-Issued q tag res word d = record {
    cmd = cmd_for abi has_room (marked q tag res) (ublk_mark_io_done (q.ios tag) res) tag word;
    queued = refl;
    counted = refl;
    owned = ground arith;
    same_buffer = refl;
    for_queue = refl;
    for_tag = refl;
    for_op = refl;
    for_result = ground arith;
    decodes = d;
  }

  pub ublk_complete_io-Recycled :
      (q : UblkQueue) (tag : ℕ) (res : ℤ) → tag < ublk_queue_depth → Recycled tag res q
  ublk_complete_io-Recycled q tag res h = elim (Bool-cases (has_room q.sq)) [
    | inl room ↦
        let (word, e, d) =
          build_user_data-Decodes tag abi.commit_and_fetch_req 0 false (omega arith)
            (linux.commit_and_fetch_req_fits) (omega arith) in
        record {
          ret = pos 1;
          after = issue_commit q tag res word;
          returns = issue_commit-returns q tag res word h room e;
          same = issue_commit-SameBut q tag res word;
          outcome = inl (room, refl, issue_commit-Issued q tag res word d);
        }
    | inr full ↦ record {
      ret = negsuc 0;
      after = marked q tag res;
      returns = blocked-returns q tag res h full;
      same = marked-SameBut q tag res;
      outcome = inr (full, refl, marked-Blocked q tag res);
    }
  ]
