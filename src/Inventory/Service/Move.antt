-- ===== src/Inventory/Service/Move.antt =====
-- `apply_document_movement`, with `_apply_inbound` and `_apply_outbound`.
pub mod Books
pub mod Conservation
pub mod Recorded
use wms_core.Base.{
  ℕ, ◌==◌, ℤ, pos, negate, Bool, true, false, String, ◌+s◌, str_of, is_nil, Option, none, some,
  List, if◌then◌else◌,
}
use wms_core.Exec.{
  pure, raise, raise_if, lift, gets, ◌>>=◌, ◌>>◌, for_each, value_error, type_error,
  invalid_quantity_error,
}
use wms_core.Inventory.Rows.{
  TransactionType, TransactionPayload, MovementPayload, MovementDocType, MovementItem, Movement,
  InventoryEvent,
}
use wms_core.Inventory.Session.{Action, commit, publish}
use wms_core.Inventory.Item.{sku, quantity_of, warehouse_location}
use wms_core.Inventory.Stock.{adjust_quantity, adjust_warehouse_quantity}
use wms_core.Inventory.Reservations.{truthy}
use wms_core.Inventory.Ledger.{TransactionEntry, has_movement_event}
use wms_core.Inventory.Service.Record.{record_movement, write_transaction}

unfoldable pub apply_inbound : ℕ → ℕ → ℤ → Option ℤ → Action (Unit {0})
apply_inbound product_id warehouse_id quantity total_delta = do
  lift (sku product_id)
  lift (warehouse_location warehouse_id)
  adjust_warehouse_quantity product_id warehouse_id quantity
  adjust_quantity product_id (elim total_delta [ none ↦ quantity | some d ↦ d ])

unfoldable pub apply_outbound : ℕ → ℕ → ℤ → Action (Unit {0})
apply_outbound product_id warehouse_id quantity = do
  lift (sku product_id)
  lift (warehouse_location warehouse_id)
  adjust_warehouse_quantity product_id warehouse_id (negate quantity)
  adjust_quantity product_id (negate quantity)

-- `int(warehouse_id)`, which fails on `None`.
abbrev pub int_of : Option ℕ → Action ℕ
int_of none = raise type_error
int_of (some id) = pure id

-- The body of the first loop of `apply_document_movement`, by the document's type.
unfoldable pub move_item : Movement → MovementDocType → MovementItem → Action (Unit {0})
move_item m MovementDocType.import item = do
  to ← int_of m.to_warehouse_id
  apply_inbound item.product_id to item.quantity none
move_item m MovementDocType.export item = do
  from ← int_of m.from_warehouse_id
  apply_outbound item.product_id from item.quantity
move_item m MovementDocType.sale item = do
  from ← int_of m.from_warehouse_id
  apply_outbound item.product_id from item.quantity
move_item m MovementDocType.transfer item = do
  from ← int_of m.from_warehouse_id
  apply_outbound item.product_id from item.quantity
  to ← int_of m.to_warehouse_id
  apply_inbound item.product_id to item.quantity (some (pos 0))
move_item m (MovementDocType.other name) item = raise value_error

unfoldable pub move_checked : Movement → MovementItem → Action (Unit {0})
unfolding move_item
move_checked m item = do lift (quantity_of item.quantity); move_item m m.doc_type item

-- `_tx_type_map.get(doc_type, doc_type)`
abbrev pub ledger_type : MovementDocType → TransactionType
ledger_type MovementDocType.import = TransactionType.purchase_receipt
ledger_type MovementDocType.export = TransactionType.adjustment_out
ledger_type MovementDocType.sale = TransactionType.sales_shipment
ledger_type MovementDocType.transfer = TransactionType.transfer_issue
ledger_type (MovementDocType.other name) = TransactionType.other name

-- `to_warehouse_id or from_warehouse_id or 0`
abbrev or_id : Option ℕ → ℕ → ℕ
or_id none default = default
or_id (some id) default = if id == 0 then default else id

abbrev pub ledger_warehouse : Movement → ℕ
ledger_warehouse m = or_id m.to_warehouse_id (or_id m.from_warehouse_id 0)

module _ (next_id : List ℕ → ℕ) where
  abbrev pub movement_entry : String → Movement → MovementItem → TransactionEntry
  movement_entry event_id m item = record {
    transaction_type = ledger_type m.doc_type;
    product_id = item.product_id;
    warehouse_id = ledger_warehouse m;
    quantity = item.quantity;
    document_id = m.document_id;
    payload = TransactionPayload.moved m.doc_type item;
    idempotency_key = some (event_id +s ":ledger:" +s str_of item.product_id);
  }

  -- `apply_document_movement` behind its guards.
  unfoldable pub apply_new : String → Movement → Action Bool
  unfolding write_transaction record_movement for_each move_checked
  apply_new event_id m = do
    for_each m.items (move_checked m)
    record_movement (some event_id) m.document_id (MovementPayload.inventory_movement_applied m)
    for_each m.items (λ item. write_transaction next_id (movement_entry event_id m item))
    commit
    publish (InventoryEvent.inventory_movement_applied m)
    pure true

  unfoldable pub apply_named : Option String → Movement → Action Bool
  unfolding has_movement_event
  apply_named none m = raise value_error
  apply_named (some event_id) m = do
    seen ← gets (has_movement_event event_id)
    raise_if (if seen then false else is_nil m.items) invalid_quantity_error
    if seen then pure false else apply_new event_id m

  unfoldable pub apply_document_movement : Movement → Action Bool
  unfolding apply_named
  apply_document_movement m = apply_named (truthy m.event_id) m
