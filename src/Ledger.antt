-- ===== src/Ledger.antt =====
-- backend/src/ledger: an append-only book of amounts.
pub mod Domain
pub mod Calendar
pub mod Repository
pub mod Service
pub mod Books
pub mod Totals
pub mod Windows
pub mod Reversals
