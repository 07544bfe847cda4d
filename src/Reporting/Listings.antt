-- ===== src/Reporting/Listings.antt =====
-- The listings of modules/reporting/infrastructure/repositories/read_model_repo.py. Rows come in the
-- order of their key. The constant entries of a report (its type, its source, its arguments) are left
-- out.
use wms_core.Base.{
  ℕ, ℤ, pos, leb, leb_ℤ, ltb_ℤ, ◌==◌, Bool, true, Option, none, some, List, [], ◌∷◌, map, find,
  select, if◌then◌else◌,
}
use wms_core.Inventory.Session.{same_number}
use wms_core.Reporting.Rows.{
  WarehouseQuantity, InventorySummary, DocumentSummary, SalesSummary, WarehouseActivitySummary, Db,
}

module _ {A : Type 0} (key : A → ℕ) where
  insert : A → List A → List A
  insert x [] = x ∷ []
  insert x (y ∷ ys) = let rest = insert x ys in if leb (key x) (key y) then x ∷ y ∷ ys else y ∷ rest

  -- `query.order_by(key).all()`
  unfoldable pub order_by : List A → List A
  unfolding insert
  order_by [] = []
  order_by (x ∷ xs) = insert x (order_by xs)

pub record InventoryItem : Type 0 where
  pub product_id : ℕ
  pub quantity : ℤ
  pub warehouse_quantities : List WarehouseQuantity

-- `warehouse_quantities.get(str(warehouse_id), 0)`
unfoldable pub quantity_at : ℕ → List WarehouseQuantity → ℤ
quantity_at warehouse_id [] = pos 0
quantity_at warehouse_id (q ∷ qs) =
    if q.warehouse_id == warehouse_id then q.quantity else quantity_at warehouse_id qs

unfoldable pub item_of : Option ℕ → InventorySummary → InventoryItem
unfolding quantity_at
item_of none row = record {
  product_id = row.product_id;
  quantity = row.total_quantity;
  warehouse_quantities = row.warehouse_quantities;
}
item_of (some warehouse_id) row = record {
  product_id = row.product_id;
  quantity = quantity_at warehouse_id row.warehouse_quantities;
  warehouse_quantities = row.warehouse_quantities;
}

-- `warehouse_id is None or quantity > 0`
abbrev pub is_listed : Option ℕ → InventoryItem → Bool
is_listed none item = true
is_listed (some _) item = ltb_ℤ (pos 0) item.quantity

unfoldable pub inventory_list : Option ℕ → Db → List InventoryItem
unfolding order_by select item_of
inventory_list warehouse_id db =
    select (is_listed warehouse_id)
      (map (item_of warehouse_id) (order_by (λ r. r.product_id) db.inventory))

-- `items` and `low_stock_items` of the report.
unfoldable pub inventory_report : Option ℕ → ℤ → Db → List InventoryItem × List InventoryItem
unfolding inventory_list select
inventory_report warehouse_id low_stock_threshold db =
    let items = inventory_list warehouse_id db in
    (items, select (λ item. leb_ℤ item.quantity low_stock_threshold) items)

abbrev is_of_warehouse : Option ℕ → WarehouseActivitySummary → Bool
is_of_warehouse none row = true
is_of_warehouse (some warehouse_id) row = row.warehouse_id == warehouse_id

unfoldable pub warehouse_report : Option ℕ → Db → List WarehouseActivitySummary
unfolding order_by select
warehouse_report warehouse_id db =
    order_by (λ r. r.warehouse_id) (select (is_of_warehouse warehouse_id) db.warehouses)

unfoldable pub documents_report : Db → List DocumentSummary
unfolding order_by
documents_report db = order_by (λ r. r.document_id) db.documents

unfoldable pub product_report : Option ℕ → Db → List InventoryItem
unfolding find item_of
product_report none db = []
product_report (some product_id) db = elim (find (λ r. r.product_id == product_id) db.inventory) [
  | none ↦ []
  | some row ↦ item_of none row ∷ []
]

abbrev is_of_customer : Option ℕ → SalesSummary → Bool
is_of_customer none row = true
is_of_customer (some c) row = same_number row.customer_id (some c)

unfoldable pub sales_report : Option ℕ → Db → List SalesSummary
unfolding order_by select
sales_report customer_id db =
    order_by (λ r. r.document_id) (select (is_of_customer customer_id) db.sales)
