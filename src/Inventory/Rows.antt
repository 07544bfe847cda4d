-- ===== src/Inventory/Rows.antt =====
-- The tables of the inventory service, infrastructure/models/*.py, and what it publishes.
-- Rows of `warehouse_inventory` are known by warehouse and product, which are unique together, and
-- their `id` is never read. Timestamps are left out but for the order of `created_at`, which is the
-- order of the rows.
use wms_core.Base.{ℕ, ℤ, String, Option, List}

-- `InventoryModel`
pub record InventoryRow : Type 0 where
  pub product_id : ℕ
  pub quantity : ℤ

-- `WarehouseInventoryModel`
pub record WarehouseRow : Type 0 where
  pub warehouse_id : ℕ
  pub product_id : ℕ
  pub quantity : ℤ
  pub physical_qty : ℤ
  pub reserved_qty : ℤ
  pub incoming_qty : ℤ
  pub in_transit_qty : ℤ

pub data ReservationStatus : Type 0 where
  pending reserved released consumed expired : ReservationStatus

-- `StockReservationModel`; `expires_at` is a time in whatever unit the clock has.
pub record Reservation : Type 0 where
  pub id : ℕ
  pub source_type : String
  pub source_id : Option ℕ
  pub document_id : Option ℕ
  pub product_id : ℕ
  pub warehouse_id : ℕ
  pub requested_qty : ℤ
  pub reserved_qty : ℤ
  pub released_qty : ℤ
  pub consumed_qty : ℤ
  pub status : ReservationStatus
  pub expires_at : Option ℕ
  pub created_by : Option String
  pub idempotency_key : Option String

-- The texts that the service uses as transaction types.
pub data TransactionType : Type 0 where
  purchase_receipt production_receipt sales_return_receipt transfer_receipt : TransactionType
  adjustment_in sales_shipment production_issue purchase_return_shipment : TransactionType
  transfer_issue internal_consumption scrap adjustment_out : TransactionType
  reservation reservation_release reservation_consume : TransactionType
  other : String → TransactionType

-- The document types of a movement payload, in upper case; `other` is any other text.
pub data MovementDocType : Type 0 where
  import export sale transfer : MovementDocType
  other : String → MovementDocType

-- The reasons that the service writes for an adjustment, with the parts of the texts it formats.
pub data Reason : Type 0 where
  manual_adjustment transfer_in_transit : Reason
  confirm_issue confirm_receipt : Option ℕ → Reason
  transfer_issue_in_transit transfer_receipt_in_transit : Reason
  direct_transaction : TransactionType → Reason
  given : String → Reason

-- One line of a movement payload.
pub record MovementItem : Type 0 where
  pub product_id : ℕ
  pub quantity : ℤ

-- The payload of `InventoryMovementRequested`, after `dict.get`.
pub record Movement : Type 0 where
  pub event_id : Option String
  pub doc_type : MovementDocType
  pub document_id : Option ℕ
  pub from_warehouse_id : Option ℕ
  pub to_warehouse_id : Option ℕ
  pub items : List MovementItem

-- What `payload_json` of the movement ledger holds, by the movement's type.
pub data MovementPayload : Type 0 where
  inventory_adjusted : ℕ → Option ℕ → ℤ → Reason → MovementPayload
  inventory_in_transit_adjusted : ℕ → ℕ → ℤ → Reason → MovementPayload
  stock_reserved : ℕ → ℕ → ℤ → ℕ → MovementPayload
  reservation_released : ℕ → ℤ → MovementPayload
  reservation_consumed : ℕ → ℤ → MovementPayload
  inventory_movement_applied : Movement → MovementPayload

-- `InventoryMovementLedgerModel`; the movement's type is the payload's constructor.
pub record MovementLedgerRow : Type 0 where
  pub event_id : String
  pub document_id : Option ℕ
  pub payload : MovementPayload

-- The payload of a row of the transaction ledger.
pub data TransactionPayload : Type 0 where
  adjusted : Reason → ℤ → TransactionPayload
  reserved : ℕ → String → Option ℕ → TransactionPayload
  released : ℕ → ℤ → TransactionPayload
  consumed : ℕ → ℤ → TransactionPayload
  moved : MovementDocType → MovementItem → TransactionPayload

-- `InventoryTransactionModel`, with the columns that the service fills.
pub record Transaction : Type 0 where
  pub id : ℕ
  pub transaction_type : TransactionType
  pub document_id : Option ℕ
  pub product_id : ℕ
  pub warehouse_id : ℕ
  pub quantity : ℤ
  pub payload : TransactionPayload
  pub idempotency_key : Option String

-- The events that the service publishes.
pub data InventoryEvent : Type 0 where
  inventory_transaction_recorded : Transaction → InventoryEvent
  inventory_adjusted : Option String → ℕ → Option ℕ → ℤ → Reason → InventoryEvent
  stock_reserved : Option String → ℕ → ℕ → ℤ → ℕ → InventoryEvent
  reservation_released : Option String → ℕ → ℤ → ℕ → ℕ → Option ℕ → InventoryEvent
  -- the servicer's own event of a release
  release_requested : ℕ → Option ℤ → InventoryEvent
  reservation_consumed : Option String → ℕ → ℤ → ℕ → ℕ → Option ℕ → InventoryEvent
  inventory_movement_applied : Movement → InventoryEvent
  transfer_issued : Option String → Option ℕ → ℕ → ℕ → ℤ → String → InventoryEvent
  transfer_received : Option String → Option ℕ → ℕ → ℕ → ℕ → ℤ → String → InventoryEvent

-- The tables.
pub record Db : Type 0 where
  pub inventory : List InventoryRow
  pub warehouse_inventory : List WarehouseRow
  pub stock_reservations : List Reservation
  pub inventory_transactions : List Transaction
  pub movement_ledger : List MovementLedgerRow
