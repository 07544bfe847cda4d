-- ===== src/Reporting/Consumer/Adjustments.antt =====
-- What an adjustment does to the read model, where its place is known.
use wms_core.Base.{
  ℕ, ℤ, String, ◌+ℤ◌, ◌==◌, ◌≡◌, refl, ap, ◌∙◌, Bool, true, false, Option, none, some, is_some,
  List, ◌++◌, map, find, update, sum_by, append-nil,
}
use mathlib.Core.Option
use wms_core.Base.Tables.{find-map}
use wms_core.Exec.{ok, then_pure_state, ◌>>=◌}
use wms_core.Reporting.Rows.{get, required, EventType, Envelope, Cell, InventorySummary, Db}
use wms_core.Reporting.Session.{Tracked, Session, track, open_session, flush_row, flushed}
use wms_core.Reporting.Stock.{
  Deltas, no_deltas, at_warehouse, of_product, change_tracked, write_activity, update_matrix,
  update_inventory, update_warehouse,
}
use wms_core.Reporting.Stock.Matrix.{
  changed, with_matrix, flush_row-known, total-changed, find-flush_row,
}
use wms_core.Reporting.Project.{apply_inventory_adjustment}
use wms_core.Reporting.Consumer.{
  of_event, record_new, record_event, ingest, consume, project, event_row, add_event,
}
use wms_core.Reporting.Consumer.Delivery.{committed_is_flushed}

-- `e` is `InventoryAdjusted` for a product in a warehouse.
pub record IsAdjustment (e : Envelope) (product_id warehouse_id : ℕ) (delta : ℤ) : Type 0 where
  pub type : e.type ≡ EventType.inventory_adjusted
  pub product : required e.payload.product_id ≡ ok product_id
  pub place : get e.payload.warehouse_id ≡ some warehouse_id
  pub amount : required e.payload.quantity_delta ≡ ok delta

abbrev physical : ℤ → Deltas
physical d = record no_deltas { physical = d }

-- What a session holds of `inventory_summary`.
abbrev inventory_of : Session → List Tracked × List InventorySummary
inventory_of s = (s.inventory, s.new.inventory)

write_activity-inventory :
    (w : ℕ) (d : ℤ) (x : Option ℕ) (b : Bool) (s : Session)
    → inventory_of (write_activity w d x b s) ≡ inventory_of s
write_activity-inventory w d x true s = refl
write_activity-inventory w d x false s = refl

adjusting-inventory :
    (p w : ℕ) (d : ℤ) (e : Envelope) (s : Session)
    → IsAdjustment e p w d
    → is_some (find (of_product p) s.inventory) ≡ true
    → inventory_of (project e s).1
      ≡ (update (of_product p) (change_tracked w (physical d)) s.inventory, s.new.inventory)
unfolding project ◌>>=◌ apply_inventory_adjustment update_inventory update_warehouse update_matrix
adjusting-inventory p w d e s a known =
    rw (a.type, a.product, a.place, a.amount, known) (write_activity-inventory w d none _ _)

recording-inventory :
    (p w : ℕ) (d : ℤ) (m : String) (e : Envelope) (s : Session)
    → IsAdjustment e p w d
    → find (of_event e.event_id) s.events ≡ none
    → is_some (find (of_product p) s.inventory) ≡ true
    → inventory_of (record_event m e s).1
      ≡ (update (of_product p) (change_tracked w (physical d)) s.inventory, s.new.inventory)
unfolding record_event record_new ◌>>=◌
recording-inventory p w d m e s a new known = rw new (
    ap inventory_of (then_pure_state (project e) true (add_event (event_row m e) s))
    ∙ adjusting-inventory p w d e (add_event (event_row m e) s) a known)

known_product :
    (p : ℕ) (row : InventorySummary) (rows : List InventorySummary)
    → find (λ r. r.product_id == p) rows ≡ some row
    → is_some (find (of_product p) (map track rows)) ≡ true
known_product p row rows h = ap is_some (
    find-map track (of_product p) (λ r. r.product_id == p) rows (λ r. refl)
    ∙ ap (Option.map track) h)

-- The row that is committed: its quantities are new and its matrix is the old one.
pub adjusted_row :
    (db db' : Db) (m : String) (e : Envelope) (p w : ℕ) (d : ℤ) (row : InventorySummary)
    → IsAdjustment e p w d
    → find (of_event e.event_id) db.events ≡ none
    → find (λ r. r.product_id == p) db.inventory ≡ some row
    → is_some (find (at_warehouse w) row.warehouse_matrix) ≡ true
    → consume db m e ≡ (ok tt, db')
    → find (λ r. r.product_id == p) db'.inventory
      ≡ some (with_matrix row.warehouse_matrix (changed w (physical d) row))
unfolding consume ingest ◌>>=◌ flushed
adjusted_row db db' m e p w d row a new found cell h =
    let s : Session = (record_event m e (open_session db)).1 in
    let both =
      committed_is_flushed (record_event m e (open_session db)).0 s db' (ap (λ r. r.0) h)
        (ap (λ r. r.1) h) in
    let rows =
      recording-inventory p w d m e (open_session db) a new
        (known_product p row db.inventory found) in
    ap (λ x. find (λ r. r.product_id == p) x.inventory) both.0
    ∙ ap (λ x. find (λ r. r.product_id == p) (map flush_row x.0 ++ x.1)) rows
    ∙ ap (find (λ r. r.product_id == p)) (append-nil _)
    ∙ find-flush_row p w (physical d) row db.inventory found
    ∙ ap some (flush_row-known w (physical d) row cell)

-- Where the matrix of a product has a cell for the warehouse, an adjustment leaves the product's
-- matrix in the database as it was, and the total is what the matrix holds with this adjustment
-- added, whatever the total was before.
pub adjustment_forgets_earlier_ones :
    (db db' : Db) (m : String) (e : Envelope) (p w : ℕ) (d : ℤ) (row : InventorySummary) (c : Cell)
    → IsAdjustment e p w d
    → find (of_event e.event_id) db.events ≡ none
    → find (λ r. r.product_id == p) db.inventory ≡ some row
    → find (at_warehouse w) row.warehouse_matrix ≡ some c
    → consume db m e ≡ (ok tt, db')
    → (after : InventorySummary) × (find (λ r. r.product_id == p) db'.inventory ≡ some after)
      × (after.warehouse_matrix ≡ row.warehouse_matrix)
      × (after.total_quantity ≡ sum_by (λ m. m.physical_qty) row.warehouse_matrix +ℤ d)
adjustment_forgets_earlier_ones db db' m e p w d row c a new found cell h = (
  with_matrix row.warehouse_matrix (changed w (physical d) row),
  adjusted_row db db' m e p w d row a new found (ap is_some cell) h,
  refl,
  total-changed w (physical d) row c cell,
)
