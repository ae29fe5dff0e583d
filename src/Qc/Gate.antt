-- ===== src/Qc/Gate.antt =====
-- The gates of scripts/qc.py: `run_gate`, `run_compound_gate`, `pending`, `gate_by_id` and
-- `add_alias_gate`.
mod Types
mod Log
mod Run
pub mod Result
unfoldable pub use Types.*
unfoldable pub use Log.*
unfoldable pub use Run.*
