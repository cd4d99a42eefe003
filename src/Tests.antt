-- ===== src/Tests.antt =====
-- Concrete runs, and the theorems at concrete inputs.
mod Packets
mod Streams
mod Chunks
mod Results
mod Reports
mod Lines
mod Output
mod Tagger
mod Replay
mod Session
mod FilterCommand
mod ToDisk
mod Export
mod Tap
