-- ===== src/Inventory/Service/Adjust.antt =====
-- `adjust_inventory`, `adjust_in_transit` and the two methods on the total.
use wms_core.Base.{
  str_eq, ℕ, ℤ, pos, negate, abs, ltb_ℤ, eqb_ℤ, Bool, true, false, String, Option, none, some, List,
  if◌then◌else◌,
}
use wms_core.Exec.{pure, raise_if, lift, gets, ◌>>=◌, ◌>>◌, invalid_quantity_error}
use wms_core.Inventory.Rows.{
  TransactionType, TransactionPayload, MovementPayload, Reason, InventoryEvent,
}
use wms_core.Inventory.Session.{Action, commit, publish}
use wms_core.Inventory.Item.{sku, warehouse_location}
use wms_core.Inventory.Stock.{
  adjust_quantity, adjust_warehouse_quantity, adjust_warehouse_in_transit,
}
use wms_core.Inventory.Ledger.{TransactionEntry}
use wms_core.Inventory.Service.Record.{tagged, is_applied, record_movement, write_transaction}

-- The arguments of `adjust_inventory`.
pub record Adjustment : Type 0 where
  pub product_id : ℕ
  pub quantity_delta : ℤ
  pub warehouse_id : Option ℕ
  pub event_id : Option String
  pub reason : Reason
  pub transaction_type : Option TransactionType

-- An adjustment with the defaults of the arguments that the methods on the total leave out.
abbrev total_adjustment : ℕ → ℤ → Adjustment
total_adjustment product_id quantity_delta = record {
  product_id = product_id;
  quantity_delta = quantity_delta;
  warehouse_id = none;
  event_id = none;
  reason = Reason.manual_adjustment;
  transaction_type = none;
}

-- A text that is empty counts as none.
abbrev is_empty : TransactionType → Bool
is_empty (TransactionType.other text) = str_eq text ""
is_empty _ = false

abbrev by_sign : ℤ → TransactionType
by_sign quantity_delta =
    if ltb_ℤ (pos 0) quantity_delta
    then TransactionType.adjustment_in
    else TransactionType.adjustment_out

-- `transaction_type or ("ADJUSTMENT_IN" if quantity_delta > 0 else "ADJUSTMENT_OUT")`
abbrev adjustment_type : Adjustment → TransactionType
adjustment_type a = elim a.transaction_type [
  | some t ↦ if is_empty t then by_sign a.quantity_delta else t
  | none ↦ by_sign a.quantity_delta
]

abbrev pub adjustment_entry : Adjustment → ℕ → TransactionEntry
adjustment_entry a warehouse_id = record {
  transaction_type = adjustment_type a;
  product_id = a.product_id;
  warehouse_id = warehouse_id;
  quantity = abs a.quantity_delta;
  document_id = none;
  payload = TransactionPayload.adjusted a.reason a.quantity_delta;
  idempotency_key = tagged a.event_id ":adjustment";
}

-- The first `if warehouse_id is not None:` of `adjust_inventory`.
unfoldable pub adjust_at : Option ℕ → ℕ → ℤ → Action (Unit {0})
adjust_at none product_id quantity_delta = pure tt
adjust_at (some warehouse_id) product_id quantity_delta = do
  lift (warehouse_location warehouse_id)
  adjust_warehouse_quantity product_id warehouse_id quantity_delta

module _ (next_id : List ℕ → ℕ) where
  -- The second `if warehouse_id is not None:` of `adjust_inventory`.
  unfoldable pub log_adjustment : Adjustment → Option ℕ → Action (Unit {0})
  unfolding write_transaction
  log_adjustment a none = pure tt
  log_adjustment a (some warehouse_id) =
      write_transaction next_id (adjustment_entry a warehouse_id) >> pure tt

  -- `adjust_inventory` behind its guards.
  unfoldable pub adjust_new : Adjustment → Action Bool
  unfolding log_adjustment adjust_at record_movement
  adjust_new a = do
    adjust_at a.warehouse_id a.product_id a.quantity_delta
    adjust_quantity a.product_id a.quantity_delta
    record_movement a.event_id none
        (MovementPayload.inventory_adjusted a.product_id a.warehouse_id a.quantity_delta a.reason)
    log_adjustment a a.warehouse_id
    commit
    publish (
        InventoryEvent.inventory_adjusted a.event_id a.product_id a.warehouse_id a.quantity_delta
          a.reason)
    pure true

  unfoldable pub adjust_inventory : Adjustment → Action Bool
  adjust_inventory a = do
    lift (sku a.product_id)
    raise_if (eqb_ℤ a.quantity_delta (pos 0)) invalid_quantity_error
    seen ← gets (is_applied a.event_id)
    if seen then pure false else adjust_new a

  unfoldable pub add_to_total_inventory : ℕ → ℤ → Action Bool
  unfolding adjust_inventory
  add_to_total_inventory product_id quantity = do
    raise_if (ltb_ℤ quantity (pos 0)) invalid_quantity_error
    adjust_inventory (total_adjustment product_id quantity)

  unfoldable pub remove_from_total_inventory : ℕ → ℤ → Action Bool
  unfolding adjust_inventory
  remove_from_total_inventory product_id quantity = do
    raise_if (ltb_ℤ quantity (pos 0)) invalid_quantity_error
    adjust_inventory (total_adjustment product_id (negate quantity))

-- The arguments of `adjust_in_transit`.
pub record InTransitAdjustment : Type 0 where
  pub product_id : ℕ
  pub quantity_delta : ℤ
  pub warehouse_id : ℕ
  pub event_id : Option String
  pub reason : Reason

-- `adjust_in_transit` behind its guards.
unfoldable pub adjust_in_transit_new : InTransitAdjustment → Action Bool
unfolding record_movement
adjust_in_transit_new a = do
  adjust_warehouse_in_transit a.product_id a.warehouse_id a.quantity_delta
  record_movement a.event_id none (
      MovementPayload.inventory_in_transit_adjusted a.product_id a.warehouse_id a.quantity_delta
        a.reason)
  commit
  pure true

unfoldable pub adjust_in_transit : InTransitAdjustment → Action Bool
adjust_in_transit a = do
  lift (sku a.product_id)
  lift (warehouse_location a.warehouse_id)
  raise_if (eqb_ℤ a.quantity_delta (pos 0)) invalid_quantity_error
  seen ← gets (is_applied a.event_id)
  if seen then pure false else adjust_in_transit_new a
