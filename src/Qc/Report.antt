-- ===== src/Qc/Report.antt =====
-- What `main` of scripts/qc.py concludes from the gates that it has run: one gate for each id,
-- every mandatory id accounted for, the report and the exit status.
mod Defs
pub mod Unique
pub mod Lookup
pub mod Verdict
unfoldable pub use Defs.*
