-- ===== src/Audit/Tests.antt =====
-- The audit service on concrete data.
use Prim.Native.Nat.{min}
use wms_core.Base.{
  ◌≡◌, ◌↔◌, ◌≤◌, ◌-◌, pos, true, none, some, List, [], ◌∷◌, length, select, pos_part, All,
}
use wms_core.Reporting.Rows.{Field}
use wms_core.Audit.Repo.{AuditEvent, Query, passes, clamped, list_events}
use wms_core.Audit.Consumer.{Message, event_of}
use wms_core.Audit.Listing.{IsNewestFirst, list_events_lem}
use wms_core.Audit.Matches.{Matches}

abbrev message : Message
message = record {
  event_id = "document-5";
  type = "DocumentPosted";
  entity_type = Field.present "document";
  entity_id = Field.present "5";
  warehouse_id = none;
  user_id = some 2;
}

abbrev rows : List AuditEvent
rows = event_of message none 100 ∷ []

-- All events of user 2, with a limit above the highest.
abbrev query : Query
query = record {
  request_id = none;
  user_id = some 2;
  action = none;
  entity_type = none;
  entity_id = none;
  warehouse_id = none;
  created_from = none;
  created_to = none;
  limit = pos 1000;
  offset = pos 0;
}

list_events_example :
    ((e : AuditEvent) → (passes query e ≡ true) ↔ Matches query e)
    × All (Matches query) (list_events query rows)
    × IsNewestFirst (list_events query rows)
    × (length (list_events query rows) ≤ 500)
    × (length (list_events query rows)
        ≡ min (clamped query.limit) (length (select (passes query) rows) - pos_part query.offset))
list_events_example = list_events_lem query rows
