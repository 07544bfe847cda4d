-- ===== src/Inventory/Totals/Consumption.antt =====
-- What consuming a reservation does to the stock and to the total.
use wms_core.Base.{
  ℕ, ℤ, ◌+ℤ◌, negate, ltb_ℤ, int_laws, +ℤ-zero, ◌≡◌, refl, ap, ◌∙◌, some, arith, Bool-cases, inl,
  inr,
}
use mathlib.Core.Path.{subst}
use wms_core.Exec.{ok, ◌>>=◌}
use wms_core.Inventory.Rows.{WarehouseRow, Reservation}
use wms_core.Inventory.Session.{Session}
use wms_core.Inventory.Stock.{get_warehouse_row, write_warehouse_row}
use wms_core.Inventory.Reservations.{
  get_row, write_reservation, consume_row, ship, consume_reservation,
}
use wms_core.Inventory.Totals.{total_of, allocated_of, only, Changes, nothing}
use wms_core.Inventory.Totals.Steps.{write_row-Changes}

shipped-quantity :
    (q : ℤ) (row : WarehouseRow)
    → row.quantity ≡ row.physical_qty
    → (ship q row).quantity ≡ row.quantity +ℤ negate q
shipped-quantity q row h = grind (int_laws, h)

-- Where a reservation is consumed whose warehouse row has a legacy quantity equal to its physical one,
-- the stock of the product over all warehouses falls by the consumed quantity and no other does, but
-- the total of every product, also of that one, stays what it was.
pub consuming_leaves_total :
    (id : ℕ) (q : ℤ) (s t : Session) (r : Reservation) (row : WarehouseRow)
    → get_row id s ≡ some r
    → get_warehouse_row r.product_id r.warehouse_id s ≡ some row
    → row.quantity ≡ row.physical_qty
    → consume_reservation id q s ≡ (ok tt, t)
    → (p : ℕ)
    → (allocated_of p t ≡ allocated_of p s +ℤ only r.product_id (negate q) p)
      × (total_of p t ≡ total_of p s)
unfolding consume_reservation ◌>>=◌
consuming_leaves_total id q s t r row found place synced h p =
    elim (Bool-cases (ltb_ℤ r.reserved_qty q)) [
      | inl u ↦ absurd (ground (arith, found, u))
      | inr u ↦
          subst
            (λ x.
              (allocated_of p x ≡ allocated_of p s +ℤ only r.product_id (negate q) p)
              × (total_of p x ≡ total_of p s))
            (ap (λ x. x.1) (rw u at (rw found at h)))
            (changed.of_stock p, changed.of_total p ∙ +ℤ-zero _)
    ]
  where
    s' : Session
    s' = write_reservation id (consume_row q) s

    changed :
        Changes
          (only r.product_id (negate q))
          nothing
          s'
          (write_warehouse_row r.product_id r.warehouse_id (ship q) s')
    changed =
        write_row-Changes r.product_id r.warehouse_id (ship q) (negate q) row s' place refl
          (shipped-quantity q row synced)
