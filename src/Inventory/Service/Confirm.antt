-- ===== src/Inventory/Service/Confirm.antt =====
-- tmp
use wms_core.Base.{
  ℕ, ltb, ℤ, pos, negate, leb_ℤ, Bool, true, false, String, str_eq, ◌+s◌, split, parse_int, Option,
  none, some, List, [], ◌∷◌, if◌then◌else◌,
}
use wms_core.Exec.{pure, raise_if, gets, ◌>>◌, invalid_quantity_error}
use wms_core.Inventory.Rows.{Transaction, TransactionType, Reason, InventoryEvent}
use wms_core.Inventory.Session.{Session, Action, publish}
use wms_core.Inventory.Reservations.{truthy}
use wms_core.Inventory.Ledger.{list_transactions}
use wms_core.Inventory.Service.Record.{tagged}
use wms_core.Inventory.Service.Adjust.{
  Adjustment, InTransitAdjustment, adjust_inventory, adjust_in_transit,
}
use wms_core.Inventory.Service.Reserve.{consume_reservation}

-- The arguments of `confirm_inventory_transaction`; a `reservation_id` or a `source_warehouse_id`
-- of 0 means that there is none.
pub record Confirmation : Type 0 where
  pub transaction_type : TransactionType
  pub product_id : ℕ
  pub warehouse_id : ℕ
  pub quantity : ℤ
  pub reservation_id : ℕ
  pub user_id : String
  pub idempotency_key : Option String
  pub source_warehouse_id : ℕ

abbrev document_of_parts : List String → Option ℕ
document_of_parts (first ∷ second ∷ rest) =
    if str_eq first "confirm" then parse_int second else none
document_of_parts _ = none

-- The document that a key `confirm_<document>_...` names. It stands in reasons and events alone.
unfoldable pub document_of_key : Option String → Option ℕ
unfolding split parse_int
document_of_key key = elim (truthy key) [ none ↦ none | some k ↦ document_of_parts (split b'_' k) ]

-- `OUTBOUND_TYPES` of `confirm_inventory_transaction`
unfoldable pub is_outbound : TransactionType → Bool
is_outbound TransactionType.sales_shipment = true
is_outbound TransactionType.production_issue = true
is_outbound TransactionType.purchase_return_shipment = true
is_outbound TransactionType.transfer_issue = true
is_outbound TransactionType.internal_consumption = true
is_outbound TransactionType.scrap = true
is_outbound TransactionType.adjustment_out = true
is_outbound _ = false

-- `source_warehouse_id if source_warehouse_id > 0 else warehouse_id`
abbrev pub source_of : Confirmation → ℕ
source_of c = if ltb 0 c.source_warehouse_id then c.source_warehouse_id else c.warehouse_id

abbrev pub issue_adjustment : Confirmation → Adjustment
issue_adjustment c = record {
  product_id = c.product_id;
  quantity_delta = negate c.quantity;
  warehouse_id = some c.warehouse_id;
  event_id = c.idempotency_key;
  reason = Reason.confirm_issue (document_of_key c.idempotency_key);
  transaction_type = some TransactionType.transfer_issue;
}

abbrev pub issue_in_transit : Confirmation → InTransitAdjustment
issue_in_transit c = record {
  product_id = c.product_id;
  quantity_delta = c.quantity;
  warehouse_id = c.warehouse_id;
  event_id = tagged c.idempotency_key ":in_transit";
  reason = Reason.transfer_issue_in_transit;
}

abbrev pub receipt_adjustment : Confirmation → Adjustment
receipt_adjustment c = record {
  product_id = c.product_id;
  quantity_delta = c.quantity;
  warehouse_id = some c.warehouse_id;
  event_id = c.idempotency_key;
  reason = Reason.confirm_receipt (document_of_key c.idempotency_key);
  transaction_type = some TransactionType.transfer_receipt;
}

abbrev pub receipt_in_transit : Confirmation → InTransitAdjustment
receipt_in_transit c = record {
  product_id = c.product_id;
  quantity_delta = negate c.quantity;
  warehouse_id = source_of c;
  event_id = tagged c.idempotency_key ":in_transit";
  reason = Reason.transfer_receipt_in_transit;
}

abbrev pub direct_adjustment : Confirmation → Adjustment
direct_adjustment c = record {
  product_id = c.product_id;
  quantity_delta = if is_outbound c.transaction_type then negate c.quantity else c.quantity;
  warehouse_id = some c.warehouse_id;
  event_id = c.idempotency_key;
  reason = Reason.direct_transaction c.transaction_type;
  transaction_type = some c.transaction_type;
}

-- `f"inventory:...:{idempotency_key}" if idempotency_key else None`
abbrev prefixed : String → Option String → Option String
prefixed text key = elim (truthy key) [ none ↦ none | some k ↦ some (text +s k) ]

-- `txs[0]["id"] if txs else 0`
abbrev first_id : List Transaction → ℕ
first_id [] = 0
first_id (t ∷ ts) = t.id

-- The id of the newest transaction of the product at the warehouse, of a type if one is given.
abbrev last_transaction : Confirmation → Option TransactionType → Session → ℕ
last_transaction c transaction_type s = first_id (
    list_transactions
      (record {
        document_id = none;
        product_id = some c.product_id;
        warehouse_id = some c.warehouse_id;
        transaction_type = transaction_type;
      })
      1 0 s)

module _ (next_id : List ℕ → ℕ) where
  unfoldable pub confirm_issue : Confirmation → Action (Unit {0})
  confirm_issue c = do
    adjust_inventory next_id (issue_adjustment c)
    adjust_in_transit (issue_in_transit c)
    publish (
        InventoryEvent.transfer_issued (prefixed "inventory:transfer-issue:" c.idempotency_key)
          (document_of_key c.idempotency_key) c.product_id c.warehouse_id c.quantity c.user_id)

  unfoldable pub confirm_receipt : Confirmation → Action (Unit {0})
  confirm_receipt c = do
    adjust_inventory next_id (receipt_adjustment c)
    adjust_in_transit (receipt_in_transit c)
    publish (
        InventoryEvent.transfer_received (prefixed "inventory:transfer-receipt:" c.idempotency_key)
          (document_of_key c.idempotency_key) c.product_id c.warehouse_id (source_of c) c.quantity
          c.user_id)

  -- The branch with no reservation, by the type.
  unfoldable pub confirm_direct : TransactionType → Confirmation → Action (Unit {0})
  unfolding confirm_issue confirm_receipt
  confirm_direct TransactionType.transfer_issue c = confirm_issue c
  confirm_direct TransactionType.transfer_receipt c = confirm_receipt c
  confirm_direct _ c = adjust_inventory next_id (direct_adjustment c) >> pure tt

  unfoldable pub confirm_reserved : Confirmation → Action ℕ
  confirm_reserved c = do
    consume_reservation next_id c.reservation_id c.quantity c.idempotency_key
    gets (last_transaction c (some TransactionType.reservation_consume))

  unfoldable pub confirm_unreserved : Confirmation → Action ℕ
  unfolding confirm_direct
  confirm_unreserved c = do confirm_direct c.transaction_type c; gets (last_transaction c none)

  unfoldable pub confirm_inventory_transaction : Confirmation → Action ℕ
  unfolding confirm_reserved confirm_unreserved
  confirm_inventory_transaction c = do
    raise_if (leb_ℤ c.quantity (pos 0)) invalid_quantity_error
    if ltb 0 c.reservation_id then confirm_reserved c else confirm_unreserved c
