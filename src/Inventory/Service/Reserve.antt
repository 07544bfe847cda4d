-- ===== src/Inventory/Service/Reserve.antt =====
-- `reserve_stock`, `release_reservation` and `consume_reservation`.
use wms_core.Base.{ℕ, ℤ, ◌-ℤ◌, Bool, true, String, Option, none, some, List, if◌then◌else◌}
use wms_core.Exec.{pure, raise, lift, gets, ◌>>=◌, ◌>>◌, key_error, value_error}
use wms_core.Inventory.Rows.{
  Reservation, TransactionType, TransactionPayload, MovementPayload, InventoryEvent,
}
use wms_core.Inventory.Session.{Session, Action, commit, publish}
use wms_core.Inventory.Item.{sku, quantity_of}
use wms_core.Inventory.Reservations.{truthy, int_or, get_row, find_by_key, ReservationRequest}
use wms_core.Inventory.Reservations
use wms_core.Inventory.Reservations
use wms_core.Inventory.Ledger.{TransactionEntry}
use wms_core.Inventory.Service.Record.{tagged, is_applied, record_movement, write_transaction}

-- The arguments of `reserve_stock`; `expires_at` is the parsed time, if it could be parsed.
pub record StockRequest : Type 0 where
  pub product_id : ℕ
  pub quantity : ℤ
  pub warehouse_id : Option ℕ
  pub event_id : Option String
  pub source_type : String
  pub source_id : Option ℕ
  pub document_id : Option ℕ
  pub created_by : Option String
  pub expires_at : Option ℕ

abbrev pub reservation_request : StockRequest → ℕ → ReservationRequest
reservation_request r warehouse_id = record {
  source_type = r.source_type;
  source_id = r.source_id;
  document_id = r.document_id;
  product_id = r.product_id;
  warehouse_id = warehouse_id;
  requested_qty = r.quantity;
  created_by = r.created_by;
  idempotency_key = r.event_id;
  expires_at = r.expires_at;
}

abbrev pub reservation_entry : StockRequest → ℕ → ℕ → TransactionEntry
reservation_entry r warehouse_id reservation_id = record {
  transaction_type = TransactionType.reservation;
  product_id = r.product_id;
  warehouse_id = warehouse_id;
  quantity = r.quantity;
  document_id = r.document_id;
  payload = TransactionPayload.reserved reservation_id r.source_type r.source_id;
  idempotency_key = tagged r.event_id ":reservation";
}

abbrev pub release_entry : Reservation → ℕ → ℤ → Option String → TransactionEntry
release_entry r reservation_id quantity event_id = record {
  transaction_type = TransactionType.reservation_release;
  product_id = r.product_id;
  warehouse_id = r.warehouse_id;
  quantity = quantity;
  document_id = r.document_id;
  payload = TransactionPayload.released reservation_id quantity;
  idempotency_key = tagged event_id ":release";
}

-- `reservation["product_id"] if reservation else 0`, and so for the other two
abbrev owner : Option Reservation → ℕ × ℕ × Option ℕ
owner none = (0, 0, none)
owner (some r) = (r.product_id, r.warehouse_id, r.document_id)

abbrev pub consume_entry : Option Reservation → ℕ → ℤ → Option String → TransactionEntry
consume_entry r reservation_id quantity event_id = record {
  transaction_type = TransactionType.reservation_consume;
  product_id = (owner r).0;
  warehouse_id = (owner r).1;
  quantity = quantity;
  document_id = (owner r).2;
  payload = TransactionPayload.consumed reservation_id quantity;
  idempotency_key = tagged event_id ":consume";
}

module _ (next_id : List ℕ → ℕ) where
  -- `reserve_stock` behind its guards.
  unfoldable pub reserve_new : StockRequest → ℕ → Action ℕ
  unfolding write_transaction record_movement
  reserve_new r warehouse_id = do
    id ← Reservations.create_reservation next_id (reservation_request r warehouse_id)
    record_movement r.event_id r.document_id
        (MovementPayload.stock_reserved r.product_id warehouse_id r.quantity id)
    write_transaction next_id (reservation_entry r warehouse_id id)
    commit
    publish (InventoryEvent.stock_reserved r.event_id r.product_id warehouse_id r.quantity id)
    pure id

  -- `existing.id` where the key is found, else 0
  abbrev pub reserved_before : StockRequest → Session → ℕ
  reserved_before r s = elim (find_by_key r.event_id s) [ none ↦ 0 | some old ↦ old.id ]

  unfoldable pub reserve_in : StockRequest → Option ℕ → Action ℕ
  reserve_in r none = raise value_error
  reserve_in r (some warehouse_id) = do
    seen ← gets (is_applied r.event_id)
    if seen then gets (reserved_before r) else reserve_new r warehouse_id

  unfoldable pub reserve_stock : StockRequest → Action ℕ
  unfolding reserve_in
  reserve_stock r = do
    lift (sku r.product_id)
    lift (quantity_of r.quantity)
    reserve_in r r.warehouse_id

  unfoldable pub release_reservation : ℕ → Option ℤ → Option String → Action Bool
  unfolding write_transaction record_movement
  release_reservation reservation_id released_qty event_id = do
    found ← gets (get_row reservation_id)
    elim found [
      | none ↦ raise key_error
      | some r ↦ do
        let qty = int_or released_qty (r.reserved_qty -ℤ r.released_qty)
        Reservations.release_reservation reservation_id released_qty
        record_movement event_id none (MovementPayload.reservation_released reservation_id qty)
        write_transaction next_id (release_entry r reservation_id qty event_id)
        commit
        publish (
            InventoryEvent.reservation_released event_id reservation_id qty r.product_id
              r.warehouse_id r.document_id)
        pure true
    ]

  unfoldable pub consume_reservation : ℕ → ℤ → Option String → Action Bool
  unfolding write_transaction record_movement
  consume_reservation reservation_id consumed_qty event_id = do
    Reservations.consume_reservation reservation_id consumed_qty
    record_movement event_id none (MovementPayload.reservation_consumed reservation_id consumed_qty)
    r ← gets (get_row reservation_id)
    write_transaction next_id (consume_entry r reservation_id consumed_qty event_id)
    commit
    publish (
        InventoryEvent.reservation_consumed event_id reservation_id consumed_qty (owner r).0
          (owner r).1 (owner r).2)
    pure true
