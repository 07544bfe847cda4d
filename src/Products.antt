-- ===== src/Products.antt =====
-- The product service, Services/product-service/src/app/modules/products: the catalog.
pub mod Product
pub mod Repo
pub mod Service
pub mod Catalog
pub mod Writes
pub mod Methods
pub mod Imports
mod Tests
