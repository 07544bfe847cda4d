-- ===== src/Documents/Types.antt =====
-- The enumerations of domain/entities/document.py and domain/transaction_types.py.
use wms_core.Base.{Bool, true, false, String, Option, some}

pub data DocumentType : Type 0 where
  import export transfer sale : DocumentType

pub data DocumentStatus : Type 0 where
  draft requested approved reserved partially_reserved in_progress : DocumentStatus
  executed partially_executed completed cancelled posted : DocumentStatus

-- `other` is a text that is no member of the enumeration: the document's field is a plain text.
pub data TransactionType : Type 0 where
  purchase_receipt production_receipt sales_return_receipt transfer_receipt : TransactionType
  adjustment_in sales_shipment production_issue purchase_return_shipment : TransactionType
  transfer_issue internal_consumption scrap adjustment_out : TransactionType
  other : String → TransactionType

-- `INBOUND_TYPES`
unfoldable pub is_inbound_type : TransactionType → Bool
is_inbound_type TransactionType.purchase_receipt = true
is_inbound_type TransactionType.production_receipt = true
is_inbound_type TransactionType.sales_return_receipt = true
is_inbound_type TransactionType.transfer_receipt = true
is_inbound_type TransactionType.adjustment_in = true
is_inbound_type _ = false

-- `OUTBOUND_TYPES`
unfoldable pub is_outbound_type : TransactionType → Bool
is_outbound_type TransactionType.sales_shipment = true
is_outbound_type TransactionType.production_issue = true
is_outbound_type TransactionType.purchase_return_shipment = true
is_outbound_type TransactionType.transfer_issue = true
is_outbound_type TransactionType.internal_consumption = true
is_outbound_type TransactionType.scrap = true
is_outbound_type TransactionType.adjustment_out = true
is_outbound_type _ = false

-- `REQUIRES_RESERVATION`
unfoldable pub requires_reservation : TransactionType → Bool
requires_reservation TransactionType.sales_shipment = true
requires_reservation TransactionType.production_issue = true
requires_reservation TransactionType.transfer_issue = true
requires_reservation _ = false

-- `transaction_type in REQUIRES_REASON_CODE`
unfoldable pub requires_reason_code : Option TransactionType → Bool
requires_reason_code (some TransactionType.adjustment_in) = true
requires_reason_code (some TransactionType.adjustment_out) = true
requires_reason_code (some TransactionType.scrap) = true
requires_reason_code (some TransactionType.internal_consumption) = true
requires_reason_code _ = false
