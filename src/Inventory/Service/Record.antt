-- ===== src/Inventory/Service/Record.antt =====
-- What every method of `InventoryService` records: `_record_movement` and `_write_transaction`, and
-- the keys that make them idempotent.
use wms_core.Base.{ℕ, Bool, false, String, ◌+s◌, Option, none, some, List}
use wms_core.Exec.{pure, ◌>>=◌, ◌>>◌}
use wms_core.Inventory.Rows.{Transaction, MovementPayload, InventoryEvent}
use wms_core.Inventory.Session.{Session, Action, publish}
use wms_core.Inventory.Reservations.{truthy}
use wms_core.Inventory.Ledger.{
  TransactionEntry, TransactionFilter, has_movement_event, record_movement_event, list_transactions,
}
use wms_core.Inventory.Ledger

-- `f"{event_id}:suffix" if event_id else None`
abbrev pub tagged : Option String → String → Option String
tagged event_id tag = elim (truthy event_id) [ none ↦ none | some e ↦ some (e +s tag) ]

-- `event_id and self.inventory_repo.has_movement_event(event_id)`
unfoldable pub is_applied : Option String → Session → Bool
unfolding has_movement_event
is_applied event_id s = elim (truthy event_id) [ none ↦ false | some e ↦ has_movement_event e s ]

unfoldable pub record_movement : Option String → Option ℕ → MovementPayload → Action (Unit {0})
unfolding record_movement_event
record_movement event_id document_id payload = elim (truthy event_id) [
  | none ↦ pure tt
  | some e ↦ record_movement_event e document_id payload
]

module _ (next_id : List ℕ → ℕ) where
  unfoldable pub write_transaction : TransactionEntry → Action Transaction
  write_transaction e = do
    tx ← Ledger.write_transaction next_id e
    publish (InventoryEvent.inventory_transaction_recorded tx)
    pure tx
