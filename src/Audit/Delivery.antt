-- ===== src/Audit/Delivery.antt =====
-- A message that the broker delivers again to the audit service.
use wms_core.Base.{◌≡◌, true, is_some, String, List, find}
use wms_core.Audit.Repo.{AuditEvent, with_event_id, constraints}

-- The event is in the table, and the table is sound.
abbrev IsStored : String → List AuditEvent → Type 0
IsStored event_id rows =
    (is_some (find (with_event_id event_id) rows) ≡ true) × (constraints rows ≡ true)
