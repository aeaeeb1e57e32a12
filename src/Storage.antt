-- ===== src/Storage.antt =====
-- crates/analyzer/src/storage: the records of a segment file.
pub mod Record
