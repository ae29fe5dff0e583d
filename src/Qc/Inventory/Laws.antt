-- ===== src/Qc/Inventory/Laws.antt =====
-- What a passed inventory and a passed secret scan mean.
pub mod Whitespace
pub mod Static
pub mod Secrets
