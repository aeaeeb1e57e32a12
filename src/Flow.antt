-- ===== src/Flow.antt =====
-- crates/analyzer/src/flow.rs: the reassembly of TCP streams, and the routing of packets to workers.
pub mod Sequence
pub mod Assembler
pub mod Stream
pub mod Shard
pub mod State
pub mod Consume
pub mod Ingest
pub mod Consumed
pub mod Hidden
pub mod Renewal
pub mod Worker
pub mod Probe
