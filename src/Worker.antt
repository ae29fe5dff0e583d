-- ===== src/Worker.antt =====
-- The worker's client of the broker, examples/16_worker_sdk_python/worker_sdk.py.
pub mod Socket
pub mod Client
pub mod Fetch
mod Tests
