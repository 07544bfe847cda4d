-- ===== src/Inventory/Service/Report.antt =====
-- The queries of `InventoryService` and the methods of the repository that they call.
use wms_core.Base.{ℕ, ◌==◌, ℤ, pos, ◌-ℤ◌, ltb_ℤ, leb_ℤ, List, map, select, sum_by, length}
use wms_core.Exec.{raise_if, gets, ◌>>◌, invalid_quantity_error}
use wms_core.Inventory.Rows.{InventoryRow, WarehouseRow}
use wms_core.Inventory.Session.{Session, Action}
use wms_core.Inventory.Stock.{get_quantity}

-- `repo.get_warehouse_distribution(product_id)`: the rows of the product.
unfoldable pub warehouse_distribution : ℕ → Session → List WarehouseRow
unfolding select
warehouse_distribution product_id s =
    select (λ row. row.product_id == product_id) s.rows.warehouse_inventory

unfoldable pub total_allocated : ℕ → Session → ℤ
unfolding warehouse_distribution sum_by
total_allocated product_id s = sum_by (λ row. row.quantity) (warehouse_distribution product_id s)

-- What `get_inventory_status` returns, but for the rows themselves.
pub record InventoryStatus : Type 0 where
  pub product_id : ℕ
  pub total_quantity : ℤ
  pub allocated_quantity : ℤ
  pub unallocated_quantity : ℤ
  pub warehouse_count : ℕ

unfoldable pub get_inventory_status : ℕ → Session → InventoryStatus
unfolding total_allocated get_quantity
get_inventory_status product_id s = record {
  product_id = product_id;
  total_quantity = get_quantity product_id s;
  allocated_quantity = total_allocated product_id s;
  unallocated_quantity = get_quantity product_id s -ℤ total_allocated product_id s;
  warehouse_count = length (warehouse_distribution product_id s);
}

-- `get_low_stock_products`: the products with at most `threshold` pieces.
unfoldable pub get_low_stock_products : ℤ → Action (List InventoryRow)
unfolding select
get_low_stock_products threshold = do
  raise_if (ltb_ℤ threshold (pos 0)) invalid_quantity_error
  gets (λ s. select (λ row. leb_ℤ row.quantity threshold) s.rows.inventory)

-- `validate_inventory_consistency`: the products that are reported, each with what its text says.
unfoldable pub validate_inventory_consistency : Session → List (ℕ × ℤ × ℤ)
unfolding total_allocated select
validate_inventory_consistency s =
    map (λ row. (row.product_id, total_allocated row.product_id s, row.quantity))
      (select (λ row. ltb_ℤ row.quantity (total_allocated row.product_id s)) s.rows.inventory)
