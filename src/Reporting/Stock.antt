-- ===== src/Reporting/Stock.antt =====
-- `_update_matrix`, `_update_inventory` and `_update_warehouse` of
-- modules/reporting/infrastructure/repositories/read_model_repo.py. `incoming_delta` is an argument
-- that no caller gives.
pub mod Matrix
use wms_core.Base.{
  ℕ, ℤ, pos, ◌+ℤ◌, ◌-ℤ◌, ◌==◌, Bool, Option, none, some, is_some, List, [], ◌∷◌, ◌++◌, map, find,
  update, sum_by, if◌then◌else◌,
}
use wms_core.Exec.{Exec, pure, modify, gets, ◌>>=◌}
use wms_core.Reporting.Rows.{
  Cell, WarehouseQuantity, InventorySummary, WarehouseActivitySummary, Db,
}
use wms_core.Reporting.Session.{Tracked, Session, Action}

-- The keyword arguments of `_update_matrix`.
pub record Deltas : Type 0 where
  pub physical : ℤ
  pub reserved : ℤ
  pub in_transit : ℤ
  pub incoming : ℤ

abbrev pub no_deltas : Deltas
no_deltas = record { physical = pos 0; reserved = pos 0; in_transit = pos 0; incoming = pos 0 }

abbrev pub empty_cell : ℕ → Cell
empty_cell warehouse_id = record {
  warehouse_id = warehouse_id;
  physical_qty = pos 0;
  reserved_qty = pos 0;
  incoming_qty = pos 0;
  in_transit_qty = pos 0;
  available_qty = pos 0;
}

-- The writes to `m`, which is an object that other mappings may hold too.
abbrev pub change_cell : Deltas → Cell → Cell
change_cell d m = record m {
  physical_qty = m.physical_qty +ℤ d.physical;
  reserved_qty = m.reserved_qty +ℤ d.reserved;
  in_transit_qty = m.in_transit_qty +ℤ d.in_transit;
  incoming_qty = m.incoming_qty +ℤ d.incoming;
  available_qty = (m.physical_qty +ℤ d.physical) -ℤ (m.reserved_qty +ℤ d.reserved);
}

abbrev pub at_warehouse : ℕ → Cell → Bool
at_warehouse warehouse_id c = c.warehouse_id == warehouse_id

-- `if key not in matrix: matrix[key] = {...}`
unfoldable pub with_key : ℕ → List Cell → List Cell
unfolding find
with_key warehouse_id matrix =
    if is_some (find (at_warehouse warehouse_id) matrix)
    then matrix
    else matrix ++ empty_cell warehouse_id ∷ []

abbrev pub physical_of : Cell → WarehouseQuantity
physical_of c = record { warehouse_id = c.warehouse_id; quantity = c.physical_qty }

-- The assignments to the row, once its mapping is `matrix`.
abbrev pub sync : List Cell → InventorySummary → InventorySummary
sync matrix row = record row {
  warehouse_matrix = matrix;
  warehouse_quantities = map physical_of matrix;
  total_quantity = sum_by (λ c. c.physical_qty) matrix;
}

unfoldable pub changed_row : ℕ → Deltas → InventorySummary → InventorySummary
unfolding with_key update
changed_row warehouse_id d row =
    sync
      (update (at_warehouse warehouse_id) (change_cell d)
        (with_key warehouse_id row.warehouse_matrix))
      row

-- On a row of the database, where the cell is one of the mapping that the session keeps, that
-- mapping changes with it.
unfoldable pub change_tracked : ℕ → Deltas → Tracked → Tracked
unfolding changed_row update
change_tracked warehouse_id d t = record t {
  row = changed_row warehouse_id d t.row;
  before = update (at_warehouse warehouse_id) (change_cell d) t.before;
}

abbrev pub of_product : ℕ → Tracked → Bool
of_product product_id t = t.row.product_id == product_id

abbrev pub new_summary : ℕ → InventorySummary
new_summary product_id = record {
  product_id = product_id;
  total_quantity = pos 0;
  warehouse_quantities = [];
  warehouse_matrix = [];
}

abbrev add_inventory : InventorySummary → Session → Session
add_inventory row s = record s { new = record s.new { inventory = s.new.inventory ++ row ∷ [] } }

-- A row that `db.get` did not find is added.
abbrev pub write_matrix : ℕ → ℕ → Deltas → Bool → Session → Session
write_matrix product_id warehouse_id d found s =
    if found
    then record s {
      inventory = update (of_product product_id) (change_tracked warehouse_id d) s.inventory;
    }
    else add_inventory (changed_row warehouse_id d (new_summary product_id)) s

unfoldable pub update_matrix : ℕ → ℕ → Deltas → Action (Unit {0})
unfolding find update changed_row change_tracked
update_matrix product_id warehouse_id d = do
  row ← gets (λ s. find (of_product product_id) s.inventory)
  modify (write_matrix product_id warehouse_id d (is_some row))

-- `_update_inventory`, with the delta that it picks.
unfoldable pub update_inventory : ℕ → ℤ → Option ℕ → Option ℤ → Action (Unit {0})
unfolding update_matrix
update_inventory product_id total_delta none warehouse_delta = pure tt
update_inventory product_id total_delta (some warehouse_id) none =
    update_matrix product_id warehouse_id (record no_deltas { physical = total_delta })
update_inventory product_id total_delta (some warehouse_id) (some delta) =
    update_matrix product_id warehouse_id (record no_deltas { physical = delta })

abbrev pub moved : ℤ → Option ℕ → WarehouseActivitySummary → WarehouseActivitySummary
moved quantity_delta document_id row = record row {
  movement_count = row.movement_count +ℤ pos 1;
  total_quantity_delta = row.total_quantity_delta +ℤ quantity_delta;
  last_document_id = document_id;
}

abbrev pub new_activity : ℕ → WarehouseActivitySummary
new_activity warehouse_id = record {
  warehouse_id = warehouse_id;
  movement_count = pos 0;
  total_quantity_delta = pos 0;
  last_document_id = none;
}

abbrev pub activity_of : ℕ → WarehouseActivitySummary → Bool
activity_of warehouse_id row = row.warehouse_id == warehouse_id

abbrev add_activity : WarehouseActivitySummary → Session → Session
add_activity row s = record s { new = record s.new { warehouses = s.new.warehouses ++ row ∷ [] } }

abbrev pub write_activity : ℕ → ℤ → Option ℕ → Bool → Session → Session
write_activity warehouse_id quantity_delta document_id found s =
    if found
    then record s {
      warehouses =
          update (activity_of warehouse_id) (moved quantity_delta document_id) s.warehouses;
    }
    else add_activity (moved quantity_delta document_id (new_activity warehouse_id)) s

unfoldable pub update_warehouse : Option ℕ → ℤ → Option ℕ → Action (Unit {0})
unfolding find update
update_warehouse none quantity_delta document_id = pure tt
update_warehouse (some warehouse_id) quantity_delta document_id = do
  row ← gets (λ s. find (activity_of warehouse_id) s.warehouses)
  modify (write_activity warehouse_id quantity_delta document_id (is_some row))
