-- ===== src/Examples.antt =====
-- Small runs of the queue, and the theorems at concrete inputs.
pub mod Data
mod Queue
mod Jobs
mod Schedules
mod Failures
mod Wakeups
mod Outside
mod Pools
mod Tasks
mod Loops
mod Benchmarks
mod Histories
mod Rounds
mod Reads
