-- ===== src/Inventory/Stock.antt =====
-- The stock methods of `InventoryRepo`, infrastructure/repositories/inventory_repo.py. The
-- repository is built with `auto_commit=False` and nothing switches that on, so its
-- `_commit_if_auto` does nothing and is not written. `scalar_one_or_none` meets no second row, since
-- product and warehouse are unique together.
use wms_core.Base.{
  ℕ, ◌==◌, ℤ, pos, ◌+ℤ◌, ◌-ℤ◌, abs, ltb_ℤ, leb_ℤ, Bool, ◌&&◌, Option, none, some, [], ◌∷◌, ◌++◌,
  if◌then◌else◌, find, update,
}
use wms_core.Exec.{
  raise, raise_if, gets, modify, ◌>>=◌, ◌>>◌, invalid_quantity_error, insufficient_stock_error,
  key_error,
}
use wms_core.Inventory.Rows.{InventoryRow, WarehouseRow}
use wms_core.Inventory.Session.{Session, Action}
use wms_core.Inventory.Item.{InventoryItem}

-- The test of `session.get(InventoryModel, product_id)`.
abbrev pub of_product : ℕ → InventoryRow → Bool
of_product product_id row = row.product_id == product_id

-- The test of a query of `WarehouseInventoryModel` by product and warehouse.
abbrev pub stored_at : ℕ → ℕ → WarehouseRow → Bool
stored_at product_id warehouse_id row =
    row.product_id == product_id && row.warehouse_id == warehouse_id

abbrev pub get_inventory : ℕ → Session → Option InventoryRow
get_inventory product_id s = find (of_product product_id) s.rows.inventory

abbrev pub get_warehouse_row : ℕ → ℕ → Session → Option WarehouseRow
get_warehouse_row product_id warehouse_id s =
    find (stored_at product_id warehouse_id) s.rows.warehouse_inventory

-- Attribute writes to the row that the query returned.
abbrev pub write_inventory : ℕ → (InventoryRow → InventoryRow) → Session → Session
write_inventory product_id f s = record s {
  rows = record s.rows { inventory = update (of_product product_id) f s.rows.inventory };
}

abbrev pub write_warehouse_row : ℕ → ℕ → (WarehouseRow → WarehouseRow) → Session → Session
write_warehouse_row product_id warehouse_id f s = record s {
  rows = record s.rows {
    warehouse_inventory = update (stored_at product_id warehouse_id) f s.rows.warehouse_inventory;
  };
}

-- `session.add(row)`
abbrev pub insert_inventory : InventoryRow → Session → Session
insert_inventory row s = record s { new = record s.new { inventory = s.new.inventory ++ row ∷ [] } }

abbrev pub insert_warehouse_row : WarehouseRow → Session → Session
insert_warehouse_row row s = record s {
  new = record s.new { warehouse_inventory = s.new.warehouse_inventory ++ row ∷ [] };
}

unfoldable pub save : InventoryItem → Action (Unit {0})
save item = do
  row ← gets (get_inventory item.product_id)
  elim row [
    | none ↦
        modify
          (insert_inventory (record { product_id = item.product_id; quantity = item.quantity }))
    | some _ ↦ modify (write_inventory item.product_id (λ r. record r { quantity = item.quantity }))
  ]

unfoldable pub add_quantity : ℕ → ℤ → Action (Unit {0})
add_quantity product_id quantity = do
  row ← gets (get_inventory product_id)
  raise_if (ltb_ℤ quantity (pos 0)) invalid_quantity_error
  elim row [
    | none ↦ modify (insert_inventory (record { product_id = product_id; quantity = quantity }))
    | some _ ↦
        modify (write_inventory product_id (λ r. record r { quantity = r.quantity +ℤ quantity }))
  ]

unfoldable pub remove_quantity : ℕ → ℤ → Action (Unit {0})
remove_quantity product_id quantity = do
  found ← gets (get_inventory product_id)
  elim found [
    | none ↦ raise key_error
    | some row ↦ do
      raise_if (ltb_ℤ quantity (pos 0)) invalid_quantity_error
      raise_if (ltb_ℤ row.quantity quantity) insufficient_stock_error
      modify (write_inventory product_id (λ r. record r { quantity = r.quantity -ℤ quantity }))
  ]

unfoldable pub adjust_quantity : ℕ → ℤ → Action (Unit {0})
unfolding add_quantity remove_quantity
adjust_quantity product_id quantity_delta =
    if leb_ℤ (pos 0) quantity_delta
    then add_quantity product_id quantity_delta
    else remove_quantity product_id (abs quantity_delta)

-- A new row, with the defaults of the columns that the caller leaves out.
abbrev pub new_warehouse_row : ℕ → ℕ → ℤ → ℤ → WarehouseRow
new_warehouse_row product_id warehouse_id quantity in_transit = record {
  warehouse_id = warehouse_id;
  product_id = product_id;
  quantity = quantity;
  physical_qty = quantity;
  reserved_qty = pos 0;
  incoming_qty = pos 0;
  in_transit_qty = in_transit;
}

unfoldable pub adjust_warehouse_quantity : ℕ → ℕ → ℤ → Action (Unit {0})
adjust_warehouse_quantity product_id warehouse_id quantity_delta = do
  found ← gets (get_warehouse_row product_id warehouse_id)
  elim found [
    | none ↦ do
      raise_if (ltb_ℤ quantity_delta (pos 0)) insufficient_stock_error
      modify
          (insert_warehouse_row (new_warehouse_row product_id warehouse_id quantity_delta (pos 0)))
    | some row ↦ do
      let next_quantity = row.quantity +ℤ quantity_delta
      raise_if (ltb_ℤ next_quantity (pos 0)) insufficient_stock_error
      modify (
          write_warehouse_row product_id warehouse_id
            (λ r. record r { quantity = next_quantity; physical_qty = next_quantity }))
  ]

unfoldable pub adjust_warehouse_in_transit : ℕ → ℕ → ℤ → Action (Unit {0})
adjust_warehouse_in_transit product_id warehouse_id quantity_delta = do
  found ← gets (get_warehouse_row product_id warehouse_id)
  elim found [
    | none ↦ do
      raise_if (ltb_ℤ quantity_delta (pos 0)) insufficient_stock_error
      modify
          (insert_warehouse_row (new_warehouse_row product_id warehouse_id (pos 0) quantity_delta))
    | some row ↦ do
      let next_in_transit = row.in_transit_qty +ℤ quantity_delta
      raise_if (ltb_ℤ next_in_transit (pos 0)) insufficient_stock_error
      modify (
          write_warehouse_row product_id warehouse_id
            (λ r. record r { in_transit_qty = next_in_transit }))
  ]

-- `row.quantity if row else 0`
abbrev quantity_or_zero : Option InventoryRow → ℤ
quantity_or_zero none = pos 0
quantity_or_zero (some row) = row.quantity

unfoldable pub get_quantity : ℕ → Session → ℤ
unfolding find
get_quantity product_id s = quantity_or_zero (get_inventory product_id s)
