-- ===== src/Metadata.antt =====
-- metadata.c: the pattern that is written into the metadata of a device and checked after a read.
pub mod Tags
pub mod Pattern
pub mod Program
