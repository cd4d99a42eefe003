-- ===== src/Results.antt =====
-- pysubunit/test_results.py: the decorators between a source of results and their report.
pub mod Tags
pub mod Times
pub mod Filter
pub mod ByTest
