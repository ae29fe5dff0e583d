-- ===== src/Qc.antt =====
-- scripts/qc.py, the conformance runner. `Process` runs one command, `Gate` records its result,
-- `Plan` is the list of gates that `main` makes, and `Report` is what it concludes from them.
pub mod Process
pub mod Gate
pub mod Inventory
pub mod Plan
pub mod Report
pub mod Main
mod Tests
