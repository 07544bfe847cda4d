-- ===== src/Reporting/Consumer.antt =====
-- `record_event` and `_project` of
-- modules/reporting/infrastructure/repositories/read_model_repo.py, and `_ingest` of
-- reporting_service/event_consumer.py, which runs them in a session of its own for each message.
pub mod Frame
pub mod Delivery
pub mod Adjustments
use wms_core.Base.{
  ◌==◌, Bool, true, false, String, str_eq, Option, none, some, is_some, List, [], ◌∷◌, ◌++◌, find,
  if◌then◌else◌,
}
use wms_core.Exec.{Result, ok, err, Exec, pure, modify, gets, ◌>>=◌, ◌>>◌}
use wms_core.Reporting.Rows.{Field, get, Payload, EventType, Envelope, ReadModelEvent, Db}
use wms_core.Reporting.Session.{Session, Action, open_session, commit}
use wms_core.Reporting.Project.{
  text_or, upsert_document, mark_document_status, confirm_document, apply_inventory_projection,
  apply_inventory_adjustment,
}
use wms_core.Reporting.Transactions.{project_inventory_transaction}

-- The status of an event whose payload names none.
abbrev pub status_of : EventType → String
status_of EventType.document_approved = "APPROVED"
status_of EventType.warehouse_execution_started = "IN_PROGRESS"
status_of EventType.document_completed = "COMPLETED"
status_of EventType.stock_reserved = "RESERVED"
status_of EventType.reservation_released = "COMPLETED"
status_of _ = "POSTED"

-- The branch of the events that change a document's status.
unfoldable pub follow : EventType → Payload → Action (Unit {0})
unfolding mark_document_status
follow type payload =
    mark_document_status payload (text_or (status_of type) payload.status) payload.posted_at

unfoldable pub project : Envelope → Action (Unit {0})
unfolding follow upsert_document mark_document_status confirm_document apply_inventory_projection
    apply_inventory_adjustment project_inventory_transaction
project e = elim e.type [
  | EventType.document_uploaded ↦ upsert_document e.payload (text_or "DRAFT" e.payload.status)
  | EventType.document_posted ↦ follow EventType.document_posted e.payload
  | EventType.document_approved ↦ follow EventType.document_approved e.payload
  | EventType.warehouse_execution_started ↦ follow EventType.warehouse_execution_started e.payload
  | EventType.document_completed ↦ follow EventType.document_completed e.payload
  | EventType.stock_reserved ↦ follow EventType.stock_reserved e.payload
  | EventType.reservation_released ↦ follow EventType.reservation_released e.payload
  | EventType.warehouse_execution_confirmed ↦ confirm_document e.payload
  | EventType.document_cancelled ↦ mark_document_status e.payload "CANCELLED" Field.null
  | EventType.inventory_movement_applied ↦ apply_inventory_projection e.payload
  | EventType.inventory_adjusted ↦ apply_inventory_adjustment e.payload
  | EventType.inventory_transaction_recorded ↦ project_inventory_transaction e.payload
  | EventType.other _ ↦ pure tt
]

abbrev pub event_row : String → Envelope → ReadModelEvent
event_row stream_id e = record {
  event_id = e.event_id;
  stream_id = stream_id;
  event_type = e.type;
  source = e.source;
  entity_type = get e.payload.entity_type;
  entity_id = get e.payload.entity_id;
  occurred_at = e.occurred_at;
  payload = e.payload;
}

abbrev pub of_event : String → ReadModelEvent → Bool
of_event event_id row = str_eq row.event_id event_id

abbrev pub add_event : ReadModelEvent → Session → Session
add_event row s = record s { new = record s.new { events = s.new.events ++ row ∷ [] } }

-- `record_event` behind its guard.
unfoldable pub record_new : String → Envelope → Action Bool
unfolding project
record_new stream_id e = do modify (add_event (event_row stream_id e)); project e; pure true

unfoldable pub record_event : String → Envelope → Action Bool
unfolding find record_new
record_event stream_id e = do
  existing ← gets (λ s. find (of_event e.event_id) s.events)
  if is_some existing then pure false else record_new stream_id e

-- `_ingest` in its session; the return value of `record_event` is dropped.
unfoldable pub ingest : String → Envelope → Action (Unit {0})
unfolding record_event
ingest message_id e = record_event message_id e >> commit

-- A message, from one state of the database to the next: the session is closed in any case, and what
-- was not committed is gone.
unfoldable pub consume : Db → String → Envelope → Result (Unit {0}) × Db
unfolding ingest
consume db message_id e =
    let (result, s) = ingest message_id e (open_session db) in (result, s.committed)
