-- ===== src/Documents/Service.antt =====
-- `DocumentService`, application/services/document_service.py, built with a session: each method is
-- an action of the repository's session. `request_id` only travels into the events, and the time
-- that a method reads from the clock is an argument.
pub mod Create
pub mod Lifecycle
pub mod Execute
pub mod Transitions
pub mod Bounds
pub mod Confirmed
pub mod Gives
pub mod Creation
pub mod Outcome
