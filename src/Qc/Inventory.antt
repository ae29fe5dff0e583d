-- ===== src/Qc/Inventory.antt =====
-- `source_files`, `static_inventory` and `secret_scan` of scripts/qc.py, over a checkout.
mod Files
mod Static
mod Secrets
pub mod Laws
unfoldable pub use Files.*
unfoldable pub use Static.*
unfoldable pub use Secrets.*
