-- ===== src/Inventory/Reservations.antt =====
-- The reservation methods of `InventoryRepo`, infrastructure/repositories/inventory_repo.py.
pub mod Available
pub mod Release
pub mod Sources
use wms_core.Base.{
  ℕ, ◌==◌, ℤ, pos, ◌+ℤ◌, ◌-ℤ◌, ltb_ℤ, leb_ℤ, eqb_ℤ, Bool, true, false, String, str_eq, Option, none,
  some, List, [], ◌∷◌, ◌++◌, map, if◌then◌else◌, find, update,
}
use wms_core.Exec.{
  pure, raise, raise_if, gets, modify, ◌>>=◌, ◌>>◌, insufficient_stock_error, key_error,
}
use wms_core.Inventory.Rows.{Reservation, ReservationStatus, WarehouseRow}
use wms_core.Inventory.Session.{Session, Action, flush}
use wms_core.Inventory.Stock.{get_warehouse_row, write_warehouse_row}

-- `if text:` on an optional text, with what is known inside.
abbrev pub truthy : Option String → Option String
truthy none = none
truthy (some t) = if str_eq t "" then none else some t

-- `quantity or default`
abbrev pub int_or : Option ℤ → ℤ → ℤ
int_or none default = default
int_or (some q) default = if eqb_ℤ q (pos 0) then default else q

abbrev pub with_id : ℕ → Reservation → Bool
with_id id r = r.id == id

abbrev has_key : String → Reservation → Bool
has_key key r = elim r.idempotency_key [ none ↦ false | some k ↦ str_eq k key ]

-- `session.get(StockReservationModel, reservation_id)`
abbrev pub get_row : ℕ → Session → Option Reservation
get_row reservation_id s = find (with_id reservation_id) s.rows.stock_reservations

abbrev find_by_truthy_key : Option String → Session → Option Reservation
find_by_truthy_key none s = none
find_by_truthy_key (some key) s = find (has_key key) s.rows.stock_reservations

-- The reservation with a given idempotency key, where the key is there and not empty.
abbrev pub find_by_key : Option String → Session → Option Reservation
find_by_key key s = find_by_truthy_key (truthy key) s

abbrev pub write_reservation : ℕ → (Reservation → Reservation) → Session → Session
write_reservation reservation_id f s = record s {
  rows = record s.rows {
    stock_reservations = update (with_id reservation_id) f s.rows.stock_reservations;
  };
}

abbrev pub insert_reservation : Reservation → Session → Session
insert_reservation r s = record s {
  new = record s.new { stock_reservations = s.new.stock_reservations ++ r ∷ [] };
}

-- The arguments of `create_reservation`.
pub record ReservationRequest : Type 0 where
  pub source_type : String
  pub source_id : Option ℕ
  pub document_id : Option ℕ
  pub product_id : ℕ
  pub warehouse_id : ℕ
  pub requested_qty : ℤ
  pub created_by : Option String
  pub idempotency_key : Option String
  pub expires_at : Option ℕ

abbrev pub reservation_of : ReservationRequest → ℕ → Reservation
reservation_of req id = record {
  id = id;
  source_type = req.source_type;
  source_id = req.source_id;
  document_id = req.document_id;
  product_id = req.product_id;
  warehouse_id = req.warehouse_id;
  requested_qty = req.requested_qty;
  reserved_qty = req.requested_qty;
  released_qty = pos 0;
  consumed_qty = pos 0;
  status = ReservationStatus.reserved;
  expires_at = req.expires_at;
  created_by = req.created_by;
  idempotency_key = req.idempotency_key;
}

-- `warehouse_row.reserved_qty += quantity`, and the other way round
abbrev pub raise_reserved : ℤ → WarehouseRow → WarehouseRow
raise_reserved quantity row = record row { reserved_qty = row.reserved_qty +ℤ quantity }

abbrev pub lower_reserved : ℤ → WarehouseRow → WarehouseRow
lower_reserved quantity row = record row { reserved_qty = row.reserved_qty -ℤ quantity }

module _ (next_id : List ℕ → ℕ) where
  -- `create_reservation` behind the test of the idempotency key. The database picks the id of the
  -- new row by `next_id` from the ids in use.
  unfoldable pub reserve_available : ReservationRequest → Action ℕ
  reserve_available req = do
    found ← gets (get_warehouse_row req.product_id req.warehouse_id)
    id ← gets (λ s. next_id (map (λ r. r.id) s.rows.stock_reservations))
    elim found [
      | none ↦ raise insufficient_stock_error
      | some row ↦ do
        raise_if (ltb_ℤ (row.physical_qty -ℤ row.reserved_qty) req.requested_qty)
            insufficient_stock_error
        modify (insert_reservation (reservation_of req id))
        modify
            (write_warehouse_row req.product_id req.warehouse_id (raise_reserved req.requested_qty))
        flush
        pure id
    ]

  unfoldable pub create_reservation : ReservationRequest → Action ℕ
  unfolding reserve_available
  create_reservation req = do
    existing ← gets (find_by_key req.idempotency_key)
    elim existing [ some r ↦ pure r.id | none ↦ reserve_available req ]

-- `reservation.status in ("RELEASED", "CONSUMED")`
abbrev pub is_closed : ReservationStatus → Bool
is_closed ReservationStatus.released = true
is_closed ReservationStatus.consumed = true
is_closed _ = false

-- What `release_reservation` writes to the reservation.
abbrev pub release_row : ℤ → Reservation → Reservation
release_row quantity r =
    let left = r.reserved_qty -ℤ quantity in
    record r {
      released_qty = r.released_qty +ℤ quantity;
      reserved_qty = left;
      status = if leb_ℤ left (pos 0) then ReservationStatus.released else r.status;
    }

unfoldable pub release_reservation : ℕ → Option ℤ → Action (Unit {0})
release_reservation reservation_id released_qty = do
  found ← gets (get_row reservation_id)
  elim found [
    | none ↦ raise key_error
    | some r ↦
        let quantity = int_or released_qty (r.reserved_qty -ℤ r.released_qty) in
        let release : Action (Unit {0}) = (do
          modify (write_reservation reservation_id (release_row quantity))
          modify (write_warehouse_row r.product_id r.warehouse_id (lower_reserved quantity))) in
        if is_closed r.status then pure tt else if leb_ℤ quantity (pos 0) then pure tt else release
  ]

-- What `consume_reservation` writes to the reservation and to the warehouse row.
abbrev pub consume_row : ℤ → Reservation → Reservation
consume_row quantity r =
    let left = r.reserved_qty -ℤ quantity in
    record r {
      consumed_qty = r.consumed_qty +ℤ quantity;
      reserved_qty = left;
      released_qty = r.released_qty +ℤ quantity;
      status = if leb_ℤ left (pos 0) then ReservationStatus.consumed else r.status;
    }

abbrev pub ship : ℤ → WarehouseRow → WarehouseRow
ship quantity row = record row {
  reserved_qty = row.reserved_qty -ℤ quantity;
  physical_qty = row.physical_qty -ℤ quantity;
  quantity = row.physical_qty -ℤ quantity;
}

unfoldable pub consume_reservation : ℕ → ℤ → Action (Unit {0})
consume_reservation reservation_id consumed_qty = do
  found ← gets (get_row reservation_id)
  elim found [
    | none ↦ raise key_error
    | some r ↦ do
      raise_if (ltb_ℤ r.reserved_qty consumed_qty) insufficient_stock_error
      modify (write_reservation reservation_id (consume_row consumed_qty))
      modify (write_warehouse_row r.product_id r.warehouse_id (ship consumed_qty))
  ]

-- What `calculate_available_stock` returns.
pub record Availability : Type 0 where
  pub physical_qty : ℤ
  pub reserved_qty : ℤ
  pub available_qty : ℤ

abbrev availability_of : Option WarehouseRow → Availability
availability_of none = record { physical_qty = pos 0; reserved_qty = pos 0; available_qty = pos 0 }
availability_of (some row) = record {
  physical_qty = row.physical_qty;
  reserved_qty = row.reserved_qty;
  available_qty = row.physical_qty -ℤ row.reserved_qty;
}

unfoldable pub calculate_available_stock : ℕ → ℕ → Session → Availability
calculate_available_stock product_id warehouse_id s =
    availability_of (get_warehouse_row product_id warehouse_id s)
