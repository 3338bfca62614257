-- ===== src/LoadTest.antt =====
-- scripts/load/run.mjs: the load test, which registers users, uploads batches for them at
-- intervals, waits for each batch to be processed and sums up how that went.
pub mod Outcome
pub mod Args
pub mod Rows
pub mod Api
pub mod Watch
pub mod Poll
pub mod Durations
pub mod Scenario
pub mod Report
