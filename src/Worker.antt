-- ===== src/Worker.antt =====
-- src/durable_queue/worker.py.
pub mod Heartbeat
pub mod Run
pub mod Pool
pub mod Sleep
pub mod Loop
