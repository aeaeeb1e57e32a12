-- ===== src/Wire.antt =====
-- crates/protocol/src/lib.rs: what the collector and the analyzer send one another. The messages
-- are in `Messages`, the conversions of sources and packets in `Convert`, frames in `Frame`; the
-- children of these prove what they promise.
pub mod Messages
pub mod Convert
pub mod Frame
