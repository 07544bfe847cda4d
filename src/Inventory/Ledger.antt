-- ===== src/Inventory/Ledger.antt =====
-- The movement ledger and the transaction ledger of `InventoryRepo`,
-- infrastructure/repositories/inventory_repo.py.
use wms_core.Base.{
  ℕ, ◌==◌, ℤ, Bool, true, false, String, str_eq, Option, none, some, List, [], ◌∷◌, ◌++◌, map,
  if◌then◌else◌, find, select, take, drop, reverse, is_some, ◌&&◌,
}
use wms_core.Exec.{pure, gets, modify, ◌>>=◌, ◌>>◌}
use wms_core.Inventory.Rows.{
  Transaction, TransactionType, TransactionPayload, MovementLedgerRow, MovementPayload,
}
use wms_core.Inventory.Session.{Session, Action, flush}
use wms_core.Inventory.Reservations.{truthy}

abbrev pub with_event_id : String → MovementLedgerRow → Bool
with_event_id event_id row = str_eq row.event_id event_id

unfoldable pub has_movement_event : String → Session → Bool
has_movement_event event_id s = is_some (find (with_event_id event_id) s.rows.movement_ledger)

abbrev insert_movement : MovementLedgerRow → Session → Session
insert_movement row s = record s {
  new = record s.new { movement_ledger = s.new.movement_ledger ++ row ∷ [] };
}

abbrev new_movement : String → Option ℕ → MovementPayload → MovementLedgerRow
new_movement event_id document_id payload = record {
  event_id = event_id;
  document_id = document_id;
  payload = payload;
}

unfoldable pub record_movement_event : String → Option ℕ → MovementPayload → Action (Unit {0})
unfolding has_movement_event
record_movement_event event_id document_id payload = do
  seen ← gets (has_movement_event event_id)
  let row = new_movement event_id document_id payload
  if seen then pure tt else modify (insert_movement row)

-- The arguments of `write_transaction` that the service gives.
pub record TransactionEntry : Type 0 where
  pub transaction_type : TransactionType
  pub product_id : ℕ
  pub warehouse_id : ℕ
  pub quantity : ℤ
  pub document_id : Option ℕ
  pub payload : TransactionPayload
  pub idempotency_key : Option String

abbrev pub transaction_of : TransactionEntry → ℕ → Transaction
transaction_of e id = record {
  id = id;
  transaction_type = e.transaction_type;
  document_id = e.document_id;
  product_id = e.product_id;
  warehouse_id = e.warehouse_id;
  quantity = e.quantity;
  payload = e.payload;
  idempotency_key = e.idempotency_key;
}

abbrev has_key : String → Transaction → Bool
has_key key t = elim t.idempotency_key [ none ↦ false | some k ↦ str_eq k key ]

abbrev pub find_by_truthy_key : Option String → Session → Option Transaction
find_by_truthy_key none s = none
find_by_truthy_key (some key) s = find (has_key key) s.rows.inventory_transactions

abbrev pub insert_transaction : Transaction → Session → Session
insert_transaction t s = record s {
  new = record s.new { inventory_transactions = s.new.inventory_transactions ++ t ∷ [] };
}

module _ (next_id : List ℕ → ℕ) where
  unfoldable pub write_transaction : TransactionEntry → Action Transaction
  write_transaction e = do
    existing ← gets (find_by_truthy_key (truthy e.idempotency_key))
    id ← gets (λ s. next_id (map (λ t. t.id) s.rows.inventory_transactions))
    let t = transaction_of e id
    elim existing [ some old ↦ pure old | none ↦ do modify (insert_transaction t); flush; pure t ]

-- The text that stands for a type in the table.
abbrev pub type_name : TransactionType → String
type_name TransactionType.purchase_receipt = "PURCHASE_RECEIPT"
type_name TransactionType.production_receipt = "PRODUCTION_RECEIPT"
type_name TransactionType.sales_return_receipt = "SALES_RETURN_RECEIPT"
type_name TransactionType.transfer_receipt = "TRANSFER_RECEIPT"
type_name TransactionType.adjustment_in = "ADJUSTMENT_IN"
type_name TransactionType.sales_shipment = "SALES_SHIPMENT"
type_name TransactionType.production_issue = "PRODUCTION_ISSUE"
type_name TransactionType.purchase_return_shipment = "PURCHASE_RETURN_SHIPMENT"
type_name TransactionType.transfer_issue = "TRANSFER_ISSUE"
type_name TransactionType.internal_consumption = "INTERNAL_CONSUMPTION"
type_name TransactionType.scrap = "SCRAP"
type_name TransactionType.adjustment_out = "ADJUSTMENT_OUT"
type_name TransactionType.reservation = "RESERVATION"
type_name TransactionType.reservation_release = "RESERVATION_RELEASE"
type_name TransactionType.reservation_consume = "RESERVATION_CONSUME"
type_name (TransactionType.other name) = name

-- A filter that is left out, or given as 0, passes every row.
abbrev passes_id : Option ℕ → ℕ → Bool
passes_id none id = true
passes_id (some wanted) id = if wanted == 0 then true else wanted == id

abbrev passes_document : Option ℕ → Option ℕ → Bool
passes_document none document_id = true
passes_document (some wanted) none = wanted == 0
passes_document (some wanted) (some id) = passes_id (some wanted) id

abbrev passes_type : Option TransactionType → TransactionType → Bool
passes_type none t = true
passes_type (some wanted) t =
    if str_eq (type_name wanted) "" then true else str_eq (type_name wanted) (type_name t)

-- The filters of `list_transactions`.
pub record TransactionFilter : Type 0 where
  pub document_id : Option ℕ
  pub product_id : Option ℕ
  pub warehouse_id : Option ℕ
  pub transaction_type : Option TransactionType

abbrev passes : TransactionFilter → Transaction → Bool
passes f t =
    passes_document f.document_id t.document_id
    && passes_id f.product_id t.product_id
    && passes_id f.warehouse_id t.warehouse_id
    && passes_type f.transaction_type t.transaction_type

-- `ORDER BY created_at DESC LIMIT limit OFFSET offset`: the rows stand in the order of their
-- creation.
unfoldable pub list_transactions : TransactionFilter → ℕ → ℕ → Session → List Transaction
list_transactions f limit offset s =
    take limit (drop offset (select (passes f) (reverse s.rows.inventory_transactions)))
