-- ===== src/DioOffsets.antt =====
-- dio-offsets.c.
pub mod Words
pub mod Globals
pub mod Spans
pub mod Device
pub mod Suite
