-- ===== src/Chunked.antt =====
-- pysubunit/chunked.py: HTTP style chunked coding.
pub mod Encoder
pub mod Decoder
