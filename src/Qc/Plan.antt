-- ===== src/Qc/Plan.antt =====
-- The gates that `main` of scripts/qc.py makes, in its order: `Types` is what it reads of the
-- host, `Toolchain` its sections 1 to 4, `Services` its sections 5 to 10.
mod Types
mod Toolchain
mod Services
unfoldable pub use Types.*
unfoldable pub use Toolchain.*
unfoldable pub use Services.*
