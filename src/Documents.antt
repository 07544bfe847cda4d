-- ===== src/Documents.antt =====
-- The documents service, Services/documents-service/src/app/modules/documents: the types of its
-- documents, the entity with its state machine, the repository and the application service.
pub mod Types
pub mod Document
pub mod Repo
pub mod Results
pub mod Service
pub mod Reservation
mod Tests
