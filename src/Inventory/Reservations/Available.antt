-- ===== src/Inventory/Reservations/Available.antt =====
-- What reserving, releasing and consuming do to the availability at a place, the quantity that
-- `calculate_available_stock` answers.
use wms_core.Base.{
  ℕ, ℤ, pos, ◌+ℤ◌, ◌-ℤ◌, ◌≤ℤ◌, ltb_ℤ, int_laws, ◌≡◌, refl, ap, ◌∙◌, false, Option, none, some, List,
  arith, Bool-cases, Option-cases, inl, inr, find, update, map,
}
use wms_core.Base.Tables.{find-update_self, find-append}
use mathlib.Core.Path.{subst}
use mathlib.Core.Option
use wms_core.Exec.{ok, pure, ◌>>=◌, ◌>>◌}
use wms_core.Inventory.Rows.{WarehouseRow, Reservation}
use wms_core.Inventory.Session.{Session, flush, constraints, merge}
use wms_core.Inventory.Stock.{stored_at, get_warehouse_row, write_warehouse_row}
use wms_core.Inventory.Reservations.{
  ReservationRequest, reservation_of, insert_reservation, reserve_available, raise_reserved, ship,
  consume_reservation, get_row, calculate_available_stock, availability_of,
}

find-write :
    (p w : ℕ) (f : WarehouseRow → WarehouseRow) (row : WarehouseRow) (rows : List WarehouseRow)
    → ((r : WarehouseRow) → stored_at p w (f r) ≡ stored_at p w r)
    → find (stored_at p w) rows ≡ some row
    → find (stored_at p w) (update (stored_at p w) f rows) ≡ some (f row)
find-write p w f row rows keep found = rw (find-update_self (stored_at p w) f rows keep, found) refl

enough_left : (a r q : ℤ) → ltb_ℤ (a -ℤ r) q ≡ false → pos 0 ≤ℤ (a -ℤ (r +ℤ q))
enough_left a r q h = grind (int_laws, h)

shipped :
    (q : ℤ) (row : Option WarehouseRow)
    → (availability_of (Option.map (ship q) row)).available_qty
      ≡ (availability_of row).available_qty
shipped q none = refl
shipped q (some row) = grind int_laws

module _ (next_id : List ℕ → ℕ) where
  -- The row before and after.
  granted :
      (req : ReservationRequest) (s t : Session) (id : ℕ)
      → reserve_available next_id req s ≡ (ok id, t)
      → (row : WarehouseRow) × (get_warehouse_row req.product_id req.warehouse_id s ≡ some row)
        × (get_warehouse_row req.product_id req.warehouse_id t
            ≡ some (raise_reserved req.requested_qty row))
        × (ltb_ℤ (row.physical_qty -ℤ row.reserved_qty) req.requested_qty ≡ false)
  unfolding reserve_available ◌>>=◌ flush
  granted req s t id h = elim (Option-cases (get_warehouse_row req.product_id req.warehouse_id s)) [
    | inl e ↦ absurd (ground arith)
    | inr (row, e) ↦
        elim (Bool-cases (ltb_ℤ (row.physical_qty -ℤ row.reserved_qty) req.requested_qty)) [
          | inl u ↦ absurd (ground arith)
          | inr u ↦ (row, e, flushed row e (rw u at (rw e at h)), u)
        ]
  ]
    where
      p : ℕ
      p = req.product_id

      w : ℕ
      w = req.warehouse_id

      written : Session
      written = write_warehouse_row p w (raise_reserved req.requested_qty) (
          insert_reservation
            (reservation_of req (next_id (map (λ r. r.id) s.rows.stock_reservations))) s)

      flushed :
          (row : WarehouseRow)
          → get_warehouse_row p w s ≡ some row
          → (flush >> pure (next_id (map (λ r. r.id) s.rows.stock_reservations))) written
            ≡ (ok id, t)
          → get_warehouse_row p w t ≡ some (raise_reserved req.requested_qty row)
      flushed row e k = elim (Bool-cases (constraints (merge written.rows written.new))) [
        | inl c ↦
            subst (λ x. get_warehouse_row p w x ≡ some (raise_reserved req.requested_qty row))
              (ap (λ r. r.1) (rw c at k))
              (find-append (stored_at p w) _ _ _ (
                find-write p w (raise_reserved req.requested_qty) row s.rows.warehouse_inventory
                  (λ r. refl) e))
        | inr c ↦ absurd (ground arith)
      ]

  -- A reservation that is granted was available in full: what was available at the place less the
  -- requested quantity is available after it, and is not below zero; the physical quantity stays.
  pub granted_reservation_was_available :
      (req : ReservationRequest) (s t : Session) (id : ℕ)
      → reserve_available next_id req s ≡ (ok id, t)
      → ((calculate_available_stock req.product_id req.warehouse_id t).available_qty
          ≡ (calculate_available_stock req.product_id req.warehouse_id s).available_qty
            -ℤ req.requested_qty)
        × (pos 0 ≤ℤ (calculate_available_stock req.product_id req.warehouse_id t).available_qty)
        × ((calculate_available_stock req.product_id req.warehouse_id t).physical_qty
            ≡ (calculate_available_stock req.product_id req.warehouse_id s).physical_qty)
  unfolding calculate_available_stock
  granted_reservation_was_available req s t id h =
      let (row, before, after, enough) = granted req s t id h in
      rw (before, after)
        (
          grind int_laws,
          enough_left row.physical_qty row.reserved_qty req.requested_qty enough,
          refl,
        )

module _ (id : ℕ) (q : ℤ) (s t : Session) (r : Reservation) where
  -- Consuming a reservation takes the goods and the promise of them together: at its place the
  -- available quantity stays what it was.
  pub consuming_keeps_available :
      get_row id s ≡ some r
      → consume_reservation id q s ≡ (ok tt, t)
      → (calculate_available_stock r.product_id r.warehouse_id t).available_qty
        ≡ (calculate_available_stock r.product_id r.warehouse_id s).available_qty
  unfolding calculate_available_stock consume_reservation ◌>>=◌
  consuming_keeps_available found h = elim (Bool-cases (ltb_ℤ r.reserved_qty q)) [
    | inl u ↦ absurd (ground arith)
    | inr u ↦
        subst
          (λ x.
            (calculate_available_stock r.product_id r.warehouse_id x).available_qty
            ≡ (calculate_available_stock r.product_id r.warehouse_id s).available_qty)
          (ap (λ x. x.1) (rw u at (rw found at h)))
          (ap (λ o. (availability_of o).available_qty)
              (find-update_self (stored_at r.product_id r.warehouse_id) (ship q)
                s.rows.warehouse_inventory (λ x. refl))
            ∙ shipped q _)
  ]
