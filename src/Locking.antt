-- ===== src/Locking.antt =====
-- The distributed lock and the semaphore over Redis, Services/audit-service/src/app/shared/core/
-- locking.py (the services have copies of that file).
pub mod Redis
pub mod Lock
pub mod Steps
pub mod Exclusion
pub mod Expiry
pub mod Semaphore
mod Tests
