-- ===== src/Inventory/Tests.antt =====
-- The inventory service on concrete data.
use wms_core.Base.{
  ◌⊎◌, ℕ, ◌+◌, max, ℤ, pos, ◌+ℤ◌, ◌-ℤ◌, ◌≤ℤ◌, ltb_ℤ, ◌≡◌, ◌≢◌, refl, negate, abs, str_of, true,
  false, Option, none, some, is_some, List, [], ◌∷◌, find, update,
}
use wms_core.Exec.{err, Error, ok, ◌>>=◌}
use wms_core.Inventory.Rows.{
  WarehouseRow, Reservation, ReservationStatus, MovementDocType, Movement,
}
use wms_core.Inventory.Session.{Session, no_rows, flush, constraints, commit}
use wms_core.Inventory.Stock.{get_warehouse_row, adjust_quantity, adjust_warehouse_quantity}
use wms_core.Inventory.Ledger.{write_transaction}
use wms_core.Inventory.Reservations.{
  ReservationRequest, reserve_available, create_reservation, consume_reservation,
  release_reservation, get_row, calculate_available_stock,
}
use wms_core.Inventory.Reservations.Available.{
  granted_reservation_was_available, consuming_keeps_available,
}
use wms_core.Inventory.Reservations.Release.{release_of_the_rest_leaves_some}
use wms_core.Inventory.Reservations.Sources.{of_source, second_reservation_of_a_source_fails}
use wms_core.Inventory.Invariant.{IsValid, IsValid-nil, IsValid-insert_row}
use wms_core.Inventory.Totals.Consumption.{consuming_leaves_total}
use wms_core.Inventory.Totals.{only, total_of, allocated_of, total, allocated}
use wms_core.Inventory.Service.Move.{
  apply_inbound, apply_outbound, apply_new, apply_document_movement,
}
use wms_core.Inventory.Service.Move.Books.{summed, line}
use wms_core.Inventory.Service.Move.Conservation.{stock_change, total_change}
use wms_core.Inventory.Servicer.{
  Store, Request, ReserveStockRequest, open_session, run, handle, serve,
}
use wms_core.Inventory.Servicer.Soundness.{serve-IsValid}
use wms_core.Inventory.Servicer.Failure.{is_single, failed_request_changes_nothing}
use wms_core.Inventory.Servicer.Movements.{
  movement_changes_stock, movement_keeps_unallocated, transfer_lowers_total,
}
use wms_core.Inventory.Servicer.Idempotence.{redelivered_movement_is_ignored}

-- The id above all ids in use.
abbrev fresh_id : List ℕ → ℕ
fresh_id [] = 1
fresh_id (x ∷ xs) = max (x + 1) (fresh_id xs)

-- Twenty pieces of product 7 in warehouse 1, all of its stock.
abbrev row : WarehouseRow
row = record {
  warehouse_id = 1;
  product_id = 7;
  quantity = pos 20;
  physical_qty = pos 20;
  reserved_qty = pos 0;
  incoming_qty = pos 0;
  in_transit_qty = pos 0;
}

abbrev stocked : Store
stocked = record {
  db = record no_rows {
    inventory = record { product_id = 7; quantity = pos 20 } ∷ [];
    warehouse_inventory = row ∷ [];
  };
  events = [];
  takes = λ before e. true;
}

abbrev movement : MovementDocType → Option ℕ → Option ℕ → ℤ → Movement
movement doc_type from to quantity = record {
  event_id = some "document-5";
  doc_type = doc_type;
  document_id = some 5;
  from_warehouse_id = from;
  to_warehouse_id = to;
  items = record { product_id = 7; quantity = quantity } ∷ [];
}

abbrev sale : Movement
sale = movement MovementDocType.sale (some 1) none (pos 4)

abbrev transfer : Movement
transfer = movement MovementDocType.transfer (some 1) (some 2) (pos 4)

abbrev after : Movement → Session
after m = (apply_document_movement fresh_id m (open_session stocked)).1

sale_is_applied :
    apply_document_movement fresh_id sale (open_session stocked) ≡ (ok true, after sale)
unfolding find update ◌+ℤ◌ ◌-ℤ◌ negate abs apply_document_movement apply_new apply_outbound
    adjust_warehouse_quantity adjust_quantity write_transaction str_of flush constraints commit
    ◌>>=◌
sale_is_applied = refl

transfer_is_applied :
    apply_document_movement fresh_id transfer (open_session stocked) ≡ (ok true, after transfer)
unfolding find update ◌+ℤ◌ ◌-ℤ◌ negate abs apply_document_movement apply_new apply_outbound
    apply_inbound adjust_warehouse_quantity adjust_quantity write_transaction str_of flush
    constraints commit ◌>>=◌
transfer_is_applied = refl

movement_changes_stock_example :
    (allocated 7 (after sale).committed.warehouse_inventory
      ≡ allocated 7 stocked.db.warehouse_inventory +ℤ stock_change sale 7)
    × (total 7 (after sale).committed.inventory
        ≡ total 7 stocked.db.inventory +ℤ total_change sale 7)
movement_changes_stock_example =
    movement_changes_stock fresh_id sale stocked (after sale) sale_is_applied 7

movement_keeps_unallocated_example :
    total 7 (after sale).committed.inventory
      -ℤ allocated 7 (after sale).committed.warehouse_inventory
    ≡ total 7 stocked.db.inventory -ℤ allocated 7 stocked.db.warehouse_inventory
movement_keeps_unallocated_example =
    movement_keeps_unallocated fresh_id sale stocked (after sale) refl sale_is_applied 7

transfer_lowers_total_example :
    (allocated 7 (after transfer).committed.warehouse_inventory
      ≡ allocated 7 stocked.db.warehouse_inventory)
    × (total 7 (after transfer).committed.inventory
        ≡ total 7 stocked.db.inventory +ℤ summed (line negate) transfer.items 7)
transfer_lowers_total_example =
    transfer_lowers_total fresh_id transfer stocked (after transfer) refl transfer_is_applied 7

abbrev sold : Store
sold = (handle fresh_id (Request.movement sale) stocked).1

sale_is_answered :
    handle fresh_id (Request.movement sale) stocked ≡ (record { success = true; id = 0 }, sold)
unfolding find update ◌+ℤ◌ ◌-ℤ◌ negate abs apply_document_movement apply_new apply_outbound
    adjust_warehouse_quantity adjust_quantity write_transaction str_of flush constraints commit
    ◌>>=◌ handle run
sale_is_answered = refl

redelivered_movement_is_ignored_example :
    handle fresh_id (Request.movement sale) sold ≡ (record { success = true; id = 0 }, sold)
redelivered_movement_is_ignored_example =
    redelivered_movement_is_ignored fresh_id sale stocked sold 0 sale_is_answered

-- A message for more pieces than there are fails.
abbrev too_much : Request
too_much = Request.movement (movement MovementDocType.sale (some 1) none (pos 21))

too_much_fails : (handle fresh_id too_much stocked).0.success ≡ false
unfolding find update ◌+ℤ◌ ◌-ℤ◌ negate abs apply_document_movement apply_new apply_outbound
    adjust_warehouse_quantity adjust_quantity write_transaction str_of flush constraints commit
    ◌>>=◌ handle run
too_much_fails = refl

too_much-is_single : is_single too_much ≡ true
unfolding is_single
too_much-is_single = refl

failed_request_changes_nothing_example :
    ((handle fresh_id too_much stocked).1.db ≡ stocked.db)
    ⊎ ((run fresh_id too_much (open_session stocked)).0 ≡ err Error.publish_error)
failed_request_changes_nothing_example =
    failed_request_changes_nothing fresh_id too_much stocked too_much-is_single too_much_fails

-- Eight pieces are asked for.
abbrev asked : ReserveStockRequest
asked = record {
  product_id = 7;
  quantity = pos 8;
  warehouse_id = 1;
  event_id = "order-3";
  source_type = "SALE";
  source_id = 3;
  document_id = 3;
  created_by = "ann";
  expires_at = none;
}

abbrev requests : List Request
requests = Request.reserve asked ∷ Request.release 1 (pos 3) ∷ Request.movement sale ∷ too_much ∷ []

stocked-IsValid : IsValid stocked.db.warehouse_inventory stocked.db.stock_reservations
stocked-IsValid = IsValid-insert_row row refl refl IsValid-nil

serve-IsValid_example :
    IsValid
      (serve fresh_id requests stocked).db.warehouse_inventory
      (serve fresh_id requests stocked).db.stock_reservations
serve-IsValid_example = serve-IsValid fresh_id requests stocked stocked-IsValid

abbrev request : ReservationRequest
request = record {
  source_type = "SALE";
  source_id = some 3;
  document_id = some 3;
  product_id = 7;
  warehouse_id = 1;
  requested_qty = pos 8;
  created_by = none;
  idempotency_key = none;
  expires_at = none;
}

abbrev promised : Session
promised = (reserve_available fresh_id request (open_session stocked)).1

request_is_granted : reserve_available fresh_id request (open_session stocked) ≡ (ok 1, promised)
unfolding find update ◌+ℤ◌ ◌-ℤ◌ reserve_available flush constraints ◌>>=◌
request_is_granted = refl

granted_reservation_was_available_example :
    ((calculate_available_stock 7 1 promised).available_qty
      ≡ (calculate_available_stock 7 1 (open_session stocked)).available_qty -ℤ pos 8)
    × (pos 0 ≤ℤ (calculate_available_stock 7 1 promised).available_qty)
    × ((calculate_available_stock 7 1 promised).physical_qty
        ≡ (calculate_available_stock 7 1 (open_session stocked)).physical_qty)
granted_reservation_was_available_example =
    granted_reservation_was_available fresh_id request (open_session stocked) promised 1
      request_is_granted

abbrev reservation : Reservation
reservation = record {
  id = 1;
  source_type = "SALE";
  source_id = some 3;
  document_id = some 3;
  product_id = 7;
  warehouse_id = 1;
  requested_qty = pos 8;
  reserved_qty = pos 8;
  released_qty = pos 0;
  consumed_qty = pos 0;
  status = ReservationStatus.reserved;
  expires_at = none;
  created_by = none;
  idempotency_key = none;
}

reservation_is_found : get_row 1 promised ≡ some reservation
unfolding find update ◌+ℤ◌ ◌-ℤ◌ reserve_available flush constraints ◌>>=◌
reservation_is_found = refl

abbrev shipped : Session
shipped = (consume_reservation 1 (pos 5) promised).1

reservation_is_consumed : consume_reservation 1 (pos 5) promised ≡ (ok tt, shipped)
unfolding find update ◌+ℤ◌ ◌-ℤ◌ reserve_available flush constraints ◌>>=◌ consume_reservation
reservation_is_consumed = refl

consuming_keeps_available_example :
    (calculate_available_stock 7 1 shipped).available_qty
    ≡ (calculate_available_stock 7 1 promised).available_qty
consuming_keeps_available_example =
    consuming_keeps_available 1 (pos 5) promised shipped reservation reservation_is_found
      reservation_is_consumed

-- Three of the eight pieces are released, then the rest.
release_of_the_rest_leaves_some_example :
    (left : Reservation) × (get_row 1
        (release_reservation 1 none (release_reservation 1 (some (pos 3)) promised).1).1
      ≡ some left)
    × (ltb_ℤ (pos 0) left.reserved_qty ≡ true)
release_of_the_rest_leaves_some_example =
    release_of_the_rest_leaves_some 1 (pos 3) promised reservation reservation_is_found refl refl
      refl refl

source_is_taken : is_some (find (of_source request) promised.rows.stock_reservations) ≡ true
unfolding find update ◌+ℤ◌ ◌-ℤ◌ reserve_available flush constraints ◌>>=◌
source_is_taken = refl

second_reservation_of_a_source_fails_example :
    create_reservation fresh_id request promised ≢ (ok 2, promised)
second_reservation_of_a_source_fails_example =
    second_reservation_of_a_source_fails fresh_id request promised refl source_is_taken 2 promised

-- The row of the reserved product.
abbrev promised_row : WarehouseRow
promised_row = record row { reserved_qty = pos 8 }

promised_row_is_found : get_warehouse_row 7 1 promised ≡ some promised_row
unfolding find update ◌+ℤ◌ ◌-ℤ◌ reserve_available flush constraints ◌>>=◌
promised_row_is_found = refl

consuming_leaves_total_example :
    (allocated_of 7 shipped ≡ allocated_of 7 promised +ℤ only 7 (negate (pos 5)) 7)
    × (total_of 7 shipped ≡ total_of 7 promised)
consuming_leaves_total_example =
    consuming_leaves_total 1 (pos 5) promised shipped reservation promised_row reservation_is_found
      promised_row_is_found refl reservation_is_consumed 7
