-- ===== src/Inventory/Totals.antt =====
-- The stock of a product: the total that `inventory` holds and what `warehouse_inventory` allocates to
-- the warehouses, and how the stock methods of the repository change the two.
pub mod Steps
pub mod Consumption
use wms_core.Base.{ℕ, ◌==◌, ℤ, pos, ◌+ℤ◌, ◌-ℤ◌, List, ◌++◌, if◌then◌else◌, sum_by, ◌≡◌, int_laws}
use wms_core.Inventory.Rows.{Db, InventoryRow, WarehouseRow}
use wms_core.Inventory.Session.{Session}
use wms_core.Inventory.Stock.{of_product}

abbrev total_in : ℕ → InventoryRow → ℤ
total_in p row = if of_product p row then row.quantity else pos 0

abbrev allocated_in : ℕ → WarehouseRow → ℤ
allocated_in p row = if row.product_id == p then row.quantity else pos 0

-- The total quantity of a product.
unfoldable pub total : ℕ → List InventoryRow → ℤ
unfolding sum_by
total p = sum_by (total_in p)

-- The quantity of a product in all warehouses.
unfoldable pub allocated : ℕ → List WarehouseRow → ℤ
unfolding sum_by
allocated p = sum_by (allocated_in p)

-- The two with what a session has added.
abbrev pub total_of : ℕ → Session → ℤ
total_of p s = total p (s.rows.inventory ++ s.new.inventory)

abbrev pub allocated_of : ℕ → Session → ℤ
allocated_of p s = allocated p (s.rows.warehouse_inventory ++ s.new.warehouse_inventory)

-- An amount at one product.
abbrev pub only : ℕ → ℤ → ℕ → ℤ
only p d q = if p == q then d else pos 0

-- Between two states of a session the allocated quantity of each product changes by `stock`, and its
-- total by `sum`.
pub record Changes (stock sum : ℕ → ℤ) (s t : Session) : Type 0 where
  pub of_stock : (q : ℕ) → allocated_of q t ≡ allocated_of q s +ℤ stock q
  pub of_total : (q : ℕ) → total_of q t ≡ total_of q s +ℤ sum q

abbrev pub nothing : ℕ → ℤ
nothing q = pos 0

pub Changes-trans :
    {f g f' g' : ℕ → ℤ} (s t u : Session)
    → Changes f g s t
    → Changes f' g' t u
    → Changes (λ q. f q +ℤ f' q) (λ q. g q +ℤ g' q) s u
Changes-trans {f} {g} {f'} {g'} s t u a b = record {
  of_stock = λ q. grind (int_laws, a.of_stock q, b.of_stock q);
  of_total = λ q. grind (int_laws, a.of_total q, b.of_total q);
}
