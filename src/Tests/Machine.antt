-- ===== src/Tests/Machine.antt =====
-- The numbers of the Linux headers, and a queue of two loop ios.
use ndt.Base.{ℕ, ◌+◌, refl, arith, Bool, false, ltb, length}
use ndt.Base.{List, [], ◌∷◌, none, pos, negsuc, inl, inr}
use ndt.Miniublk.Abi.{Abi, IsLinux}
use ndt.Miniublk.Types.{UblkIo, UblksrvIoDesc, loop_tgt}
use ndt.Miniublk.Types.{Slot, io_cmd, UblkQueue}
use ndt.Miniublk.UserData.{user_data_to_tag}
use ndt.Miniublk.World.{World, Balanced}

abbrev pub linux : Abi
linux = record {
  eagain = 11;
  ebadf = 9;
  einval = 22;
  enodev = 19;
  enomem = 12;
  enotsup = 95;
  etime = 62;
  op_read = 0;
  op_write = 1;
  op_flush = 2;
  op_discard = 3;
  op_write_zeroes = 5;
  fetch_req = 0x20;
  commit_and_fetch_req = 0x21;
  io_res_ok = pos 0;
  io_res_abort = negsuc 18;
}

pub linux-IsLinux : IsLinux linux
linux-IsLinux = record {
  enodev_pos = omega arith;
  enomem_pos = omega arith;
  enotsup_pos = omega arith;
  einval_pos = omega arith;
  fetch_req_fits = omega arith;
  commit_and_fetch_req_fits = omega arith;
  commands_differ = omega arith;
  op_read_fits = omega arith;
  op_write_fits = omega arith;
  op_flush_fits = omega arith;
  read_write_differ = omega arith;
  read_flush_differ = omega arith;
  write_flush_differ = omega arith;
  discard_read_differ = omega arith;
  discard_write_differ = omega arith;
  discard_flush_differ = omega arith;
  zeroes_read_differ = omega arith;
  zeroes_write_differ = omega arith;
  zeroes_flush_differ = omega arith;
}

-- A ring of four entries.
abbrev pub four : List Slot → Bool
four sq = ltb (length sq) 4

abbrev pub taken : UblkIo
taken = record {
  buf_addr = 0x1000;
  flags = record { need_fetch_rq = false; need_commit_rq_comp = false; io_free = false };
  result = 0;
}

-- A read of eight sectors.
abbrev pub read_request : UblksrvIoDesc
read_request = record { op = 0; nr_sectors = 8; start_sector = 16; addr = 0x1000 }

abbrev pub fetch_of : ℕ → Slot
fetch_of tag = io_cmd (record {
  cmd_op = 0x20;
  tag = tag;
  q_id = 0;
  addr = 0x1000;
  result = none;
  user_data = 0x200000 + tag;
})

-- Both ios were fetched for, and the driver has neither command yet.
abbrev pub two_ios : UblkQueue
two_ios = record {
  q_id = 0;
  q_depth = 2;
  cmd_inflight = 2;
  io_inflight = 0;
  tgt = loop_tgt;
  io_cmd_buf = λ t. read_request;
  sq = fetch_of 1 ∷ fetch_of 0 ∷ [];
  ios = λ t. taken;
  state = record { stopping = false; idle = false };
}

abbrev pub at_start : World
at_start = record { queue = two_ios; outstanding = [] }

pub at_start-Balanced : Balanced linux 2 loop_tgt at_start
unfolding user_data_to_tag
at_start-Balanced = record {
  fits = omega arith;
  depth_fixed = refl;
  tgt_fixed = refl;
  sq_filled = ((omega arith, refl), ((omega arith, refl), tt));
  out_filled = tt;
  one = λ t h. ground arith;
  cmds_counted = refl;
  files_counted = refl;
  servable = λ t. inr (inl refl);
}
