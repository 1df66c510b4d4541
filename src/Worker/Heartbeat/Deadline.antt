-- ===== src/Worker/Heartbeat/Deadline.antt =====
-- Which leases a beat extends.
use durable_queue.Prelude.{ℕ, List, map}
use durable_queue.Worker.Heartbeat.{Deadlines}

abbrev pub keys : Deadlines → List ℕ
keys ds = map (λ d. d.0) ds
