-- ===== src/Reporting/Tests.antt =====
-- The read model on concrete data.
use wms_core.Base.{pos, ◌+ℤ◌, ◌≡◌, refl, some, [], ◌∷◌, find, update, sum_by, all, ◌==◌}
use wms_core.Exec.{ok, err, ◌>>=◌, Error}
use wms_core.Inventory.Session.{unique}
use wms_core.Reporting.Rows.{
  Field, no_payload, EventType, Envelope, Cell, InventorySummary, Db, no_rows,
}
use wms_core.Reporting.Session.{flush_row, flushed, matrix_eqb, constraints, commit}
use wms_core.Reporting.Stock.{
  with_key, changed_row, change_tracked, update_matrix, update_inventory, update_warehouse,
  at_warehouse,
}
use wms_core.Reporting.Project.{apply_inventory_adjustment, mark_document_status}
use wms_core.Reporting.Consumer.{follow, project, record_new, record_event, ingest, consume}
use wms_core.Reporting.Consumer.Delivery.{
  failed_event_changes_nothing, redelivered_event_is_ignored,
}
use wms_core.Reporting.Consumer.Adjustments.{adjustment_forgets_earlier_ones}

-- Five pieces more of product 7 in warehouse 1.
abbrev adjustment : Envelope
adjustment = record {
  event_id = "adjustment-1";
  type = EventType.inventory_adjusted;
  source = "inventory-service";
  occurred_at = "2025-01-01T00:00:00Z";
  payload = record no_payload {
    product_id = Field.present 7;
    warehouse_id = Field.present 1;
    quantity_delta = Field.present (pos 5);
  };
}

-- A reservation as the inventory service publishes it, which names no document.
abbrev reserved : Envelope
reserved = record adjustment {
  event_id = "reservation-1";
  type = EventType.stock_reserved;
  payload = record no_payload {
    product_id = Field.present 7;
    warehouse_id = Field.present 1;
    quantity = Field.present (pos 5);
  };
}

abbrev ten : Cell
ten = record {
  warehouse_id = 1;
  physical_qty = pos 10;
  reserved_qty = pos 0;
  incoming_qty = pos 0;
  in_transit_qty = pos 0;
  available_qty = pos 10;
}

abbrev summary : InventorySummary
summary = record {
  product_id = 7;
  total_quantity = pos 10;
  warehouse_quantities = record { warehouse_id = 1; quantity = pos 10 } ∷ [];
  warehouse_matrix = ten ∷ [];
}

abbrev stocked : Db
stocked = record no_rows { inventory = summary ∷ [] }

abbrev adjusted : Db
adjusted = (consume stocked "1-0" adjustment).1

reserved_is_refused : consume stocked "2-0" reserved ≡ (err Error.key_error, stocked)
unfolding consume ingest record_event record_new project follow mark_document_status find ◌>>=◌
reserved_is_refused = refl

failed_event_changes_nothing_example : stocked ≡ stocked
failed_event_changes_nothing_example =
    failed_event_changes_nothing stocked stocked "2-0" reserved Error.key_error reserved_is_refused

adjustment_is_taken : consume stocked "1-0" adjustment ≡ (ok tt, adjusted)
unfolding consume ingest record_event record_new project find apply_inventory_adjustment
    update_inventory update_warehouse update_matrix update change_tracked changed_row with_key
    commit flushed flush_row matrix_eqb constraints unique all sum_by ◌+ℤ◌ ◌>>=◌
adjustment_is_taken = refl

redelivered_event_is_ignored_example : consume adjusted "3-0" adjustment ≡ (ok tt, adjusted)
redelivered_event_is_ignored_example =
    redelivered_event_is_ignored stocked adjusted "1-0" "3-0" adjustment adjustment_is_taken

product_is_known : find (λ r. r.product_id == 7) stocked.inventory ≡ some summary
unfolding find
product_is_known = refl

place_is_known : find (at_warehouse 1) summary.warehouse_matrix ≡ some ten
unfolding find
place_is_known = refl

adjustment_forgets_earlier_ones_example :
    (after : InventorySummary) × (find (λ r. r.product_id == 7) adjusted.inventory ≡ some after)
    × (after.warehouse_matrix ≡ ten ∷ [])
    × (after.total_quantity ≡ sum_by (λ m. m.physical_qty) (ten ∷ []) +ℤ pos 5)
adjustment_forgets_earlier_ones_example =
    adjustment_forgets_earlier_ones stocked adjusted "1-0" adjustment 7 1 (pos 5) summary ten
      (record { type = refl; product = refl; place = refl; amount = refl }) (unfold find in refl)
      product_is_known place_is_known adjustment_is_taken
