-- ===== src/Reporting/Rows.antt =====
-- The tables of the read model, modules/reporting/infrastructure/models/*.py, and the events that are
-- projected to them. Timestamps of the service's own clock (`updated_at`, `processed_at`) are left out:
-- nothing but listings reads them.
use wms_core.Base.{ℕ, ℤ, String, Option, none, some, List, []}
use wms_core.Exec.{Result, ok, err, key_error, type_error}
use wms_core.Inventory.Rows.{TransactionType}

-- What a payload holds under a key: no such key, `None`, or a value.
pub data Field (A : Type 0) : Type 0 where
  missing null : Field A
  present : A → Field A

module _ {A : Type 0} where
  -- `payload.get(key)`
  abbrev pub get : Field A → Option A
  get Field.missing = none
  get Field.null = none
  get (Field.present a) = some a

  -- `int(payload[key])` and `str(payload[key])`
  abbrev pub required : Field A → Result A
  required Field.missing = err key_error
  required Field.null = err type_error
  required (Field.present a) = ok a

  -- `payload.get(key) or default`, for a default that is false like what it stands for
  abbrev pub get_or : A → Field A → A
  get_or d Field.missing = d
  get_or d Field.null = d
  get_or d (Field.present a) = a

pub record PayloadItem : Type 0 where
  pub product_id : Field ℕ
  pub quantity : Field ℤ
  pub unit_price : Field ℤ

-- The keys that the projection reads; `transaction_type` in upper case.
pub record Payload : Type 0 where
  pub entity_type : Field String
  pub entity_id : Field String
  pub status : Field String
  pub posted_at : Field String
  pub created_at : Field String
  pub doc_type : Field String
  pub document_id : Field ℕ
  pub customer_id : Field ℕ
  pub from_warehouse_id : Field ℕ
  pub to_warehouse_id : Field ℕ
  pub product_id : Field ℕ
  pub warehouse_id : Field ℕ
  pub source_warehouse_id : Field ℕ
  pub quantity : Field ℤ
  pub quantity_delta : Field ℤ
  pub transaction_type : Field TransactionType
  pub items : Field (List PayloadItem)

-- `{}`
abbrev pub no_payload : Payload
no_payload = record {
  entity_type = Field.missing;
  entity_id = Field.missing;
  status = Field.missing;
  posted_at = Field.missing;
  created_at = Field.missing;
  doc_type = Field.missing;
  document_id = Field.missing;
  customer_id = Field.missing;
  from_warehouse_id = Field.missing;
  to_warehouse_id = Field.missing;
  product_id = Field.missing;
  warehouse_id = Field.missing;
  source_warehouse_id = Field.missing;
  quantity = Field.missing;
  quantity_delta = Field.missing;
  transaction_type = Field.missing;
  items = Field.missing;
}

-- `envelope.type`; `other` is any type that the projection passes over.
pub data EventType : Type 0 where
  document_uploaded document_posted document_approved : EventType
  warehouse_execution_started warehouse_execution_confirmed : EventType
  document_completed document_cancelled : EventType
  stock_reserved reservation_released : EventType
  inventory_movement_applied inventory_adjusted inventory_transaction_recorded : EventType
  other : String → EventType

-- `EventEnvelope`, as far as the repository reads it.
pub record Envelope : Type 0 where
  pub event_id : String
  pub type : EventType
  pub source : String
  pub occurred_at : String
  pub payload : Payload

-- One cell of `warehouse_matrix`, under the key `str(warehouse_id)`.
pub record Cell : Type 0 where
  pub warehouse_id : ℕ
  pub physical_qty : ℤ
  pub reserved_qty : ℤ
  pub incoming_qty : ℤ
  pub in_transit_qty : ℤ
  pub available_qty : ℤ

-- One entry of `warehouse_quantities`, under the key `str(warehouse_id)`.
pub record WarehouseQuantity : Type 0 where
  pub warehouse_id : ℕ
  pub quantity : ℤ

-- `InventorySummary`
pub record InventorySummary : Type 0 where
  pub product_id : ℕ
  pub total_quantity : ℤ
  pub warehouse_quantities : List WarehouseQuantity
  pub warehouse_matrix : List Cell

-- `DocumentSummary`; the two totals are `None` on an object that was built without them.
pub record DocumentSummary : Type 0 where
  pub document_id : ℕ
  pub doc_type : String
  pub status : String
  pub customer_id : Option ℕ
  pub from_warehouse_id : Option ℕ
  pub to_warehouse_id : Option ℕ
  pub total_quantity : Option ℤ
  pub executed_quantity : ℤ
  pub total_value : Option ℤ
  pub created_at : Option String
  pub posted_at : Option String

-- `SalesSummary`
pub record SalesSummary : Type 0 where
  pub document_id : ℕ
  pub customer_id : Option ℕ
  pub status : String
  pub total_quantity : Option ℤ
  pub total_value : Option ℤ

-- `WarehouseActivitySummary`
pub record WarehouseActivitySummary : Type 0 where
  pub warehouse_id : ℕ
  pub movement_count : ℤ
  pub total_quantity_delta : ℤ
  pub last_document_id : Option ℕ

-- `ReportingReadModelEvent`
pub record ReadModelEvent : Type 0 where
  pub event_id : String
  pub stream_id : String
  pub event_type : EventType
  pub source : String
  pub entity_type : Option String
  pub entity_id : Option String
  pub occurred_at : String
  pub payload : Payload

pub record Db : Type 0 where
  pub inventory : List InventorySummary
  pub documents : List DocumentSummary
  pub sales : List SalesSummary
  pub warehouses : List WarehouseActivitySummary
  pub events : List ReadModelEvent

abbrev pub no_rows : Db
no_rows = record { inventory = []; documents = []; sales = []; warehouses = []; events = [] }
