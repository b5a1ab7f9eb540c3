-- ===== src/DiscontiguousIo.antt =====
-- discontiguous-io.cpp: reads and writes a SCSI device through buffers that may be scattered.
pub mod Iovec
pub mod Command
pub mod Program
