-- ===== src/V2.antt =====
-- pysubunit/v2.py: the version 2 wire format.
pub mod Types
pub mod Number
pub mod Flags
pub mod Writer
pub mod Fields
pub mod Parser
pub mod Run
