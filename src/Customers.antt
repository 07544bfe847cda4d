-- ===== src/Customers.antt =====
-- The customer service, Services/customer-service/src: customers with their debt and their purchases,
-- which a consumer records from the sales of the documents service.
pub mod Rows
pub mod Repo
pub mod Consumer
pub mod Record
pub mod Debt
mod Tests
