-- ===== src/Qc/Tests.antt =====
-- Runs of the model of scripts/qc.py on small hosts, and the theorems about it at those runs.
mod Data
mod Gates
mod Verdicts
mod Checkouts
