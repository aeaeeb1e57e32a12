-- ===== src/Tests.antt =====
-- Runs of the modelled code on concrete inputs, and the theorems at such inputs.
mod Wire
mod Packet
mod Record
mod Assembler
mod Stream
mod Http
mod Probe
mod Domain
mod Payload
mod Rules
mod Worker
mod Auth
mod Collector
