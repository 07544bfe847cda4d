-- ===== src/Reporting/Consumer/Frame.antt =====
-- What a projection leaves alone: the committed rows and the table of events.
use wms_core.Base.{
  ℕ, ℤ, String, ◌≡◌, refl, Bool, true, false, Option, none, some, is_some, List, arith,
}
use wms_core.Exec.{◌>>=◌}
use wms_core.Exec.Atomic.{IsQuiet, quiet_rules, IsQuiet-bind, IsQuiet-gets, IsQuiet-modify}
use wms_core.Inventory.Rows.{TransactionType}
use wms_core.Reporting.Rows.{
  Field, Payload, PayloadItem, EventType, Envelope, DocumentSummary, ReadModelEvent, Db,
}
use wms_core.Reporting.Session.{Session}
use wms_core.Reporting.Stock.{
  Deltas, write_matrix, write_activity, update_matrix, update_inventory, update_warehouse,
}
use wms_core.Reporting.Project.{
  upsert_sale_from_document, sale_of, write_and_sell, or_new, execute_found, upsert_document,
  mark_document_status, confirm_document, move_line, apply_inventory_projection,
  apply_inventory_adjustment,
}
use wms_core.Reporting.Transactions.{
  Entry, outbound, inbound, leave_transit, by_type, project_inventory_transaction,
}
use wms_core.Reporting.Consumer.{follow, project}

abbrev pub frame : Session → Db × List ReadModelEvent × List ReadModelEvent
frame s = (s.committed, s.events, s.new.events)

write_matrix-frame :
    (p w : ℕ) (d : Deltas) (b : Bool) (s : Session) → frame (write_matrix p w d b s) ≡ frame s
write_matrix-frame p w d true s = refl
write_matrix-frame p w d false s = refl

write_activity-frame :
    (w : ℕ) (d : ℤ) (x : Option ℕ) (b : Bool) (s : Session)
    → frame (write_activity w d x b s) ≡ frame s
write_activity-frame w d x true s = refl
write_activity-frame w d x false s = refl

update_matrix-IsQuiet : (p w : ℕ) (d : Deltas) → IsQuiet frame (update_matrix p w d)
unfolding update_matrix
update_matrix-IsQuiet p w d =
    IsQuiet-bind _ _ (IsQuiet-gets _)
      (λ row. IsQuiet-modify _ (write_matrix-frame p w d (is_some row)))

update_inventory-IsQuiet :
    (p : ℕ) (t : ℤ) (w : Option ℕ) (d : Option ℤ) → IsQuiet frame (update_inventory p t w d)
unfolding update_inventory
update_inventory-IsQuiet p t none d = search quiet_rules
update_inventory-IsQuiet p t (some w) none = update_matrix-IsQuiet p w _
update_inventory-IsQuiet p t (some w) (some d) = update_matrix-IsQuiet p w _

update_warehouse-IsQuiet :
    (w : Option ℕ) (d : ℤ) (x : Option ℕ) → IsQuiet frame (update_warehouse w d x)
unfolding update_warehouse
update_warehouse-IsQuiet none d x = search quiet_rules
update_warehouse-IsQuiet (some w) d x =
    IsQuiet-bind _ _ (IsQuiet-gets _)
      (λ row. IsQuiet-modify _ (write_activity-frame w d x (is_some row)))

upsert_sale-IsQuiet : (d : DocumentSummary) → IsQuiet frame (upsert_sale_from_document d)
unfolding upsert_sale_from_document ◌>>=◌
upsert_sale-IsQuiet d = record { at = λ s. ground arith }

sale_of-IsQuiet : (d : DocumentSummary) → IsQuiet frame (sale_of d)
unfolding sale_of
sale_of-IsQuiet d = search (quiet_rules, upsert_sale-IsQuiet)

write_and_sell-IsQuiet :
    (id : ℕ) (d : DocumentSummary) (f : DocumentSummary → DocumentSummary)
    → IsQuiet frame (write_and_sell id d f)
unfolding write_and_sell
write_and_sell-IsQuiet id d f = IsQuiet-bind _ _ (IsQuiet-gets _) (λ row.
    IsQuiet-bind _ _ (IsQuiet-modify _ (λ s. ground arith))
      (λ _. sale_of-IsQuiet (f (or_new d row))))

execute_found-IsQuiet :
    (id : ℕ) (q : ℤ) (row : Option DocumentSummary) → IsQuiet frame (execute_found id q row)
execute_found-IsQuiet id q none = search quiet_rules
execute_found-IsQuiet id q (some d) =
    IsQuiet-bind _ _ (IsQuiet-modify _ (λ s. refl)) (λ _. sale_of-IsQuiet _)

confirm_document-IsQuiet : (p : Payload) → IsQuiet frame (confirm_document p)
unfolding confirm_document
confirm_document-IsQuiet p = search (quiet_rules, execute_found-IsQuiet)

ruleset document_rules = (quiet_rules, write_and_sell-IsQuiet, confirm_document-IsQuiet)

ruleset stock_rules =
    (quiet_rules, update_matrix-IsQuiet, update_inventory-IsQuiet, update_warehouse-IsQuiet)

upsert_document-IsQuiet : (p : Payload) (t : String) → IsQuiet frame (upsert_document p t)
unfolding upsert_document
upsert_document-IsQuiet p t = search document_rules

mark-IsQuiet :
    (p : Payload) (t : String) (f : Field String) → IsQuiet frame (mark_document_status p t f)
unfolding mark_document_status
mark-IsQuiet p t f = search document_rules

move_line-IsQuiet : (p : Payload) (d : Option ℕ) (i : PayloadItem) → IsQuiet frame (move_line p d i)
unfolding move_line
move_line-IsQuiet p d i = search stock_rules depth 14

movement-IsQuiet : (p : Payload) → IsQuiet frame (apply_inventory_projection p)
unfolding apply_inventory_projection
movement-IsQuiet p = search (quiet_rules, move_line-IsQuiet)

adjustment-IsQuiet : (p : Payload) → IsQuiet frame (apply_inventory_adjustment p)
unfolding apply_inventory_adjustment
adjustment-IsQuiet p = search stock_rules

outbound-IsQuiet : (e : Entry) → IsQuiet frame (outbound e)
unfolding outbound
outbound-IsQuiet e = search stock_rules

inbound-IsQuiet : (e : Entry) → IsQuiet frame (inbound e)
unfolding inbound
inbound-IsQuiet e = search stock_rules

leave_transit-IsQuiet : (e : Entry) → IsQuiet frame (leave_transit e)
unfolding leave_transit
leave_transit-IsQuiet e = search stock_rules

ruleset entry_rules = (stock_rules, outbound-IsQuiet, inbound-IsQuiet, leave_transit-IsQuiet)

by_type-IsQuiet : (t : Option TransactionType) (e : Entry) → IsQuiet frame (by_type t e)
unfolding by_type
by_type-IsQuiet none e = search entry_rules
by_type-IsQuiet (some t) e = elim t as (λ k. IsQuiet frame (by_type (some k) e)) [
  | TransactionType.other text ↦ search entry_rules
  | _ ↦ search entry_rules
]

transaction-IsQuiet : (p : Payload) → IsQuiet frame (project_inventory_transaction p)
unfolding project_inventory_transaction
transaction-IsQuiet p = search (quiet_rules, by_type-IsQuiet)

ruleset project_rules = (
  quiet_rules, upsert_document-IsQuiet, mark-IsQuiet, confirm_document-IsQuiet, movement-IsQuiet,
  adjustment-IsQuiet, transaction-IsQuiet,
)

pub project-IsQuiet : (e : Envelope) → IsQuiet frame (project e)
unfolding project follow
project-IsQuiet e = go e.type
  where
    go : (t : EventType) → IsQuiet frame (project (record e { type = t }))
    go (EventType.other text) = search project_rules
    go _ = search project_rules
