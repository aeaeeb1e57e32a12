-- ===== src/Packet.antt =====
-- crates/collector/src/packet.rs: parsing of captured IP packets, and their classification by the
-- monitored sources. `panic` stands for an index or a slice out of bounds, `nothing` for `None`.
pub mod Parse
pub mod Classify
