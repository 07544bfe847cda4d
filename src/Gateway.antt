-- ===== src/Gateway.antt =====
-- The API gateway, Services/api-gateway/src/api_gateway: the buffer of ingested events, and the permissions.
pub mod IngestBuffer
pub mod Permissions
mod Tests
