-- ===== src/Lib.antt =====
-- A model of the programs of blktests, which this repository carries in its root file system
-- for kernel tests, under initramfs/rootfs/opt/blktests/src: miniublk.c, a server for ublk block
-- devices, metadata.c, a check of block devices with integrity metadata, dio-offsets.c, which tests
-- direct I/O from addresses and lengths that are aligned and that are not,
-- nvme-passthrough-meta.c, which tests the metadata of NVMe passthrough commands, pcimem.c, which
-- reads and writes the registers of a PCI device, discontiguous-io.cpp, which reads and writes SCSI
-- blocks from a scattered buffer, and ten programs of a few system calls each.
--
-- miniublk.c. A device has queues, each served by a thread; a queue has up to 128 ios, each named by
-- a tag. The thread sends a fetch command per io to the driver, serves the request that a completion
-- announces by its target (null or loop), and sends the result back with a commit command. The loop
-- target works on a backing file, by io_uring too. Subcommands make, recover and delete devices with
-- commands on a control device.
--   Miniublk/Abi          the numbers of <errno.h> and <linux/ublk_cmd.h>, as a parameter
--   Miniublk/UserData     build_user_data, user_data_to_tag, user_data_to_op, is_target_io
--   Miniublk/Types        struct ublk_io, struct ublk_queue, what is written into a submission
--   Miniublk/Queue        ublk_queue_io_cmd, ublk_complete_io, ublk_submit_fetch_commands, the tests
--                         for idle and done; Queue/Recycling: their effect field by field
--   Miniublk/Setup        ublk_queue_init; Setup/Fresh and Setup/Fetching: what it leaves, and the
--                         first commands; Setup/Release: ublk_queue_deinit
--   Miniublk/Engine       the targets' queue_io and tgt_io_done, ublk_handle_cqe, ublk_process_io;
--                         Engine/Serving, Engine/Handling, Engine/Refusing: proofs
--   Miniublk/Thread       ublk_io_handler_fn
--   Miniublk/Ledger       who holds each tag, and what the two counters count
--   Miniublk/World        a queue and the kernel as a step relation; World/Start, World/Safety,
--                         World/Counting, World/Rounds and World/Draining: runs
--   Miniublk/Control      Monad: calls as a trace; Commands: __ublk_ctrl_cmd and the ublk_ctrl_
--                         functions; Targets: ublk_find_tgt, setup and recovery of the targets;
--                         Daemon: ublk_start_daemon and ublk_stop_io_daemon; Subcommands: add, recover,
--                         del and the listing of one device; Program: list and the dispatch of main
-- State is passed explicitly. The queue is a record; a pointer to an io is a tag into its array; the
-- submission queue is the list of entries not yet submitted, the newest first, and a parameter says
-- when it has room. `none` stands for a failed assertion or an access past the array. A counter is a
-- 32-bit word with its wrap-around written out, an `int` an integer of unbounded size that is
-- converted where the code converts it. The kernel takes the oldest entries, describes requests, and
-- completes what it has taken in any order and with any result. It is assumed to describe, for the
-- loop target, reads, writes and flushes only, since for others the code submits an entry that it
-- did not write. On the control side a host answers each call, knowing all calls before it. In daemon
-- the calling process ends, which its answer 1 stands for, and the program goes on in another one.
--
-- metadata.c writes a pattern to every offset and reads it back.
--   Metadata/Tags         swap, __put_unaligned_be48, __get_unaligned_be48
--   Metadata/Pattern      init_capabilities, init_metadata, check_metadata; Pattern/Detection and
--                         Pattern/RoundTrip: proofs
--   Metadata/Program      init_data, check_data, main; Program/Success: proofs
-- A buffer is a function from addresses to bytes, and the device a parameter that answers a write and
-- a read. The machine is little-endian. The size of the metadata buffer is an `int` that
-- wraps; the reference tags, an `int` in the code, do not overflow.
--
-- dio-offsets.c writes parts of one buffer to a file, reads them into another and compares, or offers
-- vectors that the kernel has to refuse.
--   DioOffsets/Words      unsigned long, and an unsigned long kept in an int
--   DioOffsets/Globals    init_args, init_buffers; Globals/Sound and Globals/Room: proofs
--   DioOffsets/Spans      offset and length of the vectors of each test; Spans/Alignment,
--                         Spans/Bounds and Spans/Totals: proofs
--   DioOffsets/Device     the two buffers, struct iovec, __compare, and the device as a parameter
--   DioOffsets/Suite      the tests, run_tests, main; Suite/Kernel: what they rely on of the kernel;
--                         Suite/Passing, Suite/Detecting and Suite/Flaws: proofs
-- An address is an offset in one of the buffers, or null. The device answers a write and a read at
-- position 0, of one vector or of several, with the value that the program keeps in an int, and with
-- the file and the buffers after it. An exit with a message is a failure value; what main frees and
-- closes at its end is left out. An access past a buffer is not noticed by the model, whose buffers
-- are functions of the offset: theorems about bounds speak of it.
--
-- nvme-passthrough-meta.c makes a fixed sequence of calls.
--   NvmePassthroughMeta   main, as a program over the answers of a host; Sizes and Script: proofs
-- A call is answered from the calls before it. Shifting 1 past an int is an ending of its own.
--
-- pcimem.c maps the memory of a device, prints it and writes to it.
--   Pcimem                main, on a device memory that is a parameter; Dump: proofs
-- What C leaves open, an exceeded int and an address that was never set, are endings of their own. Its
-- messages are left out.
--
-- discontiguous-io.cpp sends READ(6) and WRITE(6) commands through SG_IO.
--   DiscontiguousIo/Iovec    iovec_t: data_len, trunc, write; Iovec/Trunc and Iovec/Gather: proofs
--   DiscontiguousIo/Command  sg_read and sg_write, and the driver as a parameter; Command/Encoding
--   DiscontiguousIo/Program  main; Program/Layout, Program/Sending, Program/Reading,
--                            Program/RoundTrip and Program/Writing: proofs
-- The address of a vector is an offset in the buffer, whose bytes are a function of the offset. What
-- the driver reads and writes of it is its own: theorems about content assume that it carries a
-- command out. The standard input is a list of bytes with the count of the last read.
--
-- The programs of a few calls are sequences of calls that a host answers, as above.
--   SmallPrograms            calls, events and the host
--   SmallPrograms/Ioctls     loblksize.c, nbdsetsize.c, loop_get_status_null.c, ioctl-lbmd-query.c,
--                            zbdioctl.c
--   SmallPrograms/Sequences  loop_change_fd.c, sg/dxfer-from-dev.c, openclose.c
--   SmallPrograms/Uring      nvme-passthru-admin-uring.c
--   SmallPrograms/Mount      mount_clear_sock.c, whose new processes go on where fork answers 0
--   SmallPrograms/Resources  what a trace leaves open; Resources/Released, Resources/Waiting: proofs
-- A number among the arguments is given as strtoull or atoi reads it.
--
-- Loops are structural recursion on the number of turns that are left, so no fuel is needed. The
-- loop of a queue thread, which has no bound, takes one answer per wait, and ends with the list of
-- answers or with the queue; the recursion is on that list.
--
-- Not modelled: messages and debug masks, getopt_long (its options are a list), the printing of
-- ublk_ctrl_dump and of the help, dumphex; generated reproducers, shell scripts, and the copies of
-- other projects.
--
-- Base holds what the parts share, and Tests concrete runs.
pub mod Base
pub mod Miniublk
pub mod Metadata
pub mod DioOffsets
pub mod NvmePassthroughMeta
pub mod Pcimem
pub mod DiscontiguousIo
pub mod SmallPrograms
pub mod Tests
