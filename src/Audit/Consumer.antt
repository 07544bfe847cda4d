-- ===== src/Audit/Consumer.antt =====
-- `_ingest` of audit_service/event_consumer.py: a message, from one state of the table to the next. The
-- request's id and the time come from the context of the call.
use wms_core.Base.{ℕ, Option, some, String, List}
use wms_core.Exec.{Result, ◌>>◌}
use wms_core.Reporting.Rows.{Field, get}
use wms_core.Audit.Repo.{AuditEvent, Action, open_session, commit, create_event}

-- The envelope and the keys of its payload that are read. `_int_or_none` makes a number of what it
-- can, so what is none is left out here.
pub record Message : Type 0 where
  pub event_id : String
  pub type : String
  pub entity_type : Field String
  pub entity_id : Field String
  pub warehouse_id : Option ℕ
  pub user_id : Option ℕ

abbrev pub event_of : Message → Option String → ℕ → AuditEvent
event_of m request_id now = record {
  event_id = some m.event_id;
  request_id = request_id;
  user_id = m.user_id;
  action = m.type;
  entity_type = get m.entity_type;
  entity_id = get m.entity_id;
  warehouse_id = m.warehouse_id;
  created_at = now;
}

unfoldable pub ingest : Message → Option String → ℕ → Action (Unit {0})
unfolding create_event commit
ingest m request_id now = create_event (event_of m request_id now) >> commit

unfoldable pub consume :
    List AuditEvent → Message → Option String → ℕ → Result (Unit {0}) × List AuditEvent
unfolding ingest
consume rows m request_id now =
    let (result, s) = ingest m request_id now (open_session rows) in (result, s.committed)
