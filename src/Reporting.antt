-- ===== src/Reporting.antt =====
-- The reporting service, Services/reporting-service/src: a read model that an event consumer projects
-- from the events of the other services.
pub mod Rows
pub mod Session
pub mod Stock
pub mod Project
pub mod Transactions
pub mod Consumer
pub mod Listings
mod Tests
