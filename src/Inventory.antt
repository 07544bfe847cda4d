-- ===== src/Inventory.antt =====
-- The inventory service, Services/inventory-service/src/app/modules/inventory: the tables, the
-- session, the domain entity, the repository and the application service, each with its proofs.
pub mod Rows
pub mod Session
pub mod Item
pub mod Stock
pub mod Reservations
pub mod Ledger
pub mod Service
pub mod Invariant
pub mod Totals
pub mod Servicer
mod Tests
