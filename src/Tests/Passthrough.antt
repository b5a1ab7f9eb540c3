-- ===== src/Tests/Passthrough.antt =====
-- nvme-passthrough-meta.c on a namespace with 8 bytes of metadata for each block of 512.
use ndt.Base.{
  ℕ, ◌+◌, ◌*◌, ◌^◌, ◌==◌, ◌≤◌, ◌<◌, ◌≡◌, ◌↔◌, refl, arith, ℤ, pos, negsuc, List, [], ◌∷◌,
}
use ndt.Base.{All, if◌then◌else◌}
use ndt.NvmePassthroughMeta.{
  Host, Call, open_device, ioctl_id, ioctl_admin_cmd, ioctl_io_cmd, map_pages, Address, in_writable,
  in_read_only, returned, current_lbaf, io_cmd, meta_buffer_size, main, passthrough, require,
  exchange, expect_failure, check_format, identify_cmd, blocks,
}
use ndt.NvmePassthroughMeta.Sizes.{FitsCall, metadata_fits_iff, io_cmd_sizes}
use ndt.NvmePassthroughMeta.Script.{IsPosix, script, after}
use ndt.NvmePassthroughMeta.Script.Whole.{IsScripted, last_read, main_succeeds_iff}

-- Reads into the read-only pages fail.
abbrev answer_io : ℕ → Address → ℤ
answer_io opcode (in_read_only offset) = if opcode == 2 then negsuc 13 else pos 0
answer_io opcode _ = pos 0

abbrev answer : List Call → Call → ℤ
answer calls open_device = pos 3
answer calls ioctl_id = pos 1
answer calls (ioctl_admin_cmd cmd) = pos 0
answer calls (ioctl_io_cmd cmd) = answer_io cmd.opcode cmd.metadata
answer calls (map_pages size writable) = pos 0

abbrev namespace_512 : Host
namespace_512 = record {
  answer = answer;
  errno = λ calls. 5;
  einval = 22;
  efault = 14;
  flbas = 0;
  lbaf = λ i. record { ms = 8; ds = 9 };
}

posix : IsPosix namespace_512
posix = record {
  errno_pos = λ calls. omega arith;
  einval_pos = omega arith;
  efault_pos = omega arith;
}

abbrev trace : List Call
trace = last_read namespace_512 ∷ after namespace_512 (script namespace_512) []

-- The run itself.
succeeds : main namespace_512 2 ≡ returned (pos 0) trace
unfolding main passthrough require exchange expect_failure check_format current_lbaf identify_cmd
    io_cmd blocks meta_buffer_size
succeeds = refl

main_succeeds_iff_example : (main namespace_512 2 ≡ returned (pos 0) trace) ↔ (
    (2 ≤ 2)
    × IsScripted namespace_512
    × (trace ≡ last_read namespace_512 ∷ after namespace_512 (script namespace_512) []))
main_succeeds_iff_example = main_succeeds_iff namespace_512 posix 2 trace

metadata_fits_iff_example : All (FitsCall 8192) trace ↔ (meta_buffer_size namespace_512 ≤ 4112)
metadata_fits_iff_example = metadata_fits_iff namespace_512 posix 2 trace succeeds

io_cmd_sizes_example :
    let cmd = io_cmd namespace_512 (pos 1) 1 (in_writable 0) in
    ((cmd.cdw12 + 1) * 2 ^ (current_lbaf namespace_512).ds ≡ cmd.data_len)
    × (cmd.metadata_len ≡ (cmd.cdw12 + 1) * (current_lbaf namespace_512).ms)
    × (cmd.metadata_len < 2 ^ 31)
io_cmd_sizes_example =
    io_cmd_sizes namespace_512 (pos 1) 1 (in_writable 0) (unfold current_lbaf in omega arith)
      (unfold current_lbaf in omega arith)
