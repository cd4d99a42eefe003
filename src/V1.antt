-- ===== src/V1.antt =====
-- pysubunit/__init__.py and pysubunit/details.py: version 1 of the protocol, which is made of lines.
pub mod Calls
pub mod Details
pub mod Server
pub mod Client
pub mod Stats
pub mod Replay
