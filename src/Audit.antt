-- ===== src/Audit.antt =====
-- The audit service, Services/audit-service/src: the table of audit events, its consumer and its query.
pub mod Repo
pub mod Consumer
pub mod Matches
pub mod Listing
pub mod Delivery
mod Tests
