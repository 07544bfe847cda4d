-- ===== src/Reporting/Transactions.antt =====
-- `_project_inventory_transaction` of
-- modules/reporting/infrastructure/repositories/read_model_repo.py.
use wms_core.Base.{ℕ, ℤ, pos, negate, ◌==◌, ◌||◌, Option, none, some, if◌then◌else◌}
use wms_core.Exec.{pure, ◌>>◌}
use wms_core.Inventory.Rows.{TransactionType}
use wms_core.Reporting.Rows.{get, get_or, Payload}
use wms_core.Reporting.Session.{Action}
use wms_core.Reporting.Stock.{no_deltas, update_matrix, update_warehouse}

-- The arguments of one transaction.
pub record Entry : Type 0 where
  pub product_id : ℕ
  pub warehouse_id : ℕ
  pub quantity : ℤ
  pub document_id : Option ℕ
  pub source_warehouse_id : ℕ

-- The types of `OUTBOUND_TYPES` and `INBOUND_TYPES`, and stock that moves in or out of a warehouse.
unfoldable pub outbound : Entry → Action (Unit {0})
unfolding update_matrix update_warehouse
outbound e =
    update_matrix e.product_id e.warehouse_id (record no_deltas { physical = negate e.quantity })
    >> update_warehouse (some e.warehouse_id) (negate e.quantity) e.document_id

unfoldable pub inbound : Entry → Action (Unit {0})
unfolding update_matrix update_warehouse
inbound e =
    update_matrix e.product_id e.warehouse_id (record no_deltas { physical = e.quantity })
    >> update_warehouse (some e.warehouse_id) e.quantity e.document_id

-- `if src_wh: self._update_matrix(product_id, src_wh, in_transit_delta=-quantity)`
unfoldable pub leave_transit : Entry → Action (Unit {0})
unfolding update_matrix
leave_transit e =
    if e.source_warehouse_id == 0
    then pure tt
    else update_matrix e.product_id e.source_warehouse_id
        (record no_deltas { in_transit = negate e.quantity })

unfoldable pub by_type : Option TransactionType → Entry → Action (Unit {0})
unfolding outbound inbound leave_transit update_matrix update_warehouse
by_type (some TransactionType.reservation) e =
    update_matrix e.product_id e.warehouse_id (record no_deltas { reserved = e.quantity })
by_type (some TransactionType.reservation_release) e =
    update_matrix e.product_id e.warehouse_id (record no_deltas { reserved = negate e.quantity })
by_type (some TransactionType.reservation_consume) e =
    update_matrix e.product_id e.warehouse_id
      (record no_deltas { physical = negate e.quantity; reserved = negate e.quantity })
    >> update_warehouse (some e.warehouse_id) (negate e.quantity) e.document_id
by_type (some TransactionType.transfer_issue) e =
    update_matrix e.product_id e.warehouse_id
      (record no_deltas { physical = negate e.quantity; in_transit = e.quantity })
    >> update_warehouse (some e.warehouse_id) (negate e.quantity) e.document_id
by_type (some TransactionType.transfer_receipt) e = inbound e >> leave_transit e
by_type (some TransactionType.sales_shipment) e = outbound e
by_type (some TransactionType.production_issue) e = outbound e
by_type (some TransactionType.purchase_return_shipment) e = outbound e
by_type (some TransactionType.internal_consumption) e = outbound e
by_type (some TransactionType.scrap) e = outbound e
by_type (some TransactionType.adjustment_out) e = outbound e
by_type (some TransactionType.purchase_receipt) e = inbound e
by_type (some TransactionType.production_receipt) e = inbound e
by_type (some TransactionType.sales_return_receipt) e = inbound e
by_type (some TransactionType.adjustment_in) e = inbound e
by_type (some (TransactionType.other text)) e = pure tt
by_type none e = pure tt

abbrev pub entry_of : Payload → Entry
entry_of payload = record {
  product_id = get_or 0 payload.product_id;
  warehouse_id = get_or 0 payload.warehouse_id;
  quantity = get_or (pos 0) payload.quantity;
  document_id = get payload.document_id;
  source_warehouse_id = get_or 0 payload.source_warehouse_id;
}

unfoldable pub project_inventory_transaction : Payload → Action (Unit {0})
unfolding by_type
project_inventory_transaction payload =
    if get_or 0 payload.product_id == 0 || get_or 0 payload.warehouse_id == 0
    then pure tt
    else by_type (get payload.transaction_type) (entry_of payload)
