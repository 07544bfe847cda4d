-- ===== src/Inventory/Session.antt =====
-- A database session of the inventory service, as shared/core/database.py makes it: queries do not
-- flush (`autoflush=False`), so they see the rows of the database, with what has been written to
-- them, and not the objects that were added since the last flush. A flush inserts these, and is
-- refused where a constraint of infrastructure/models/*.py fails.
use wms_core.Base.{
  ℕ, pos, ◌==◌, Bool, true, false, not, ◌&&◌, ◌||◌, String, str_eq, Option, some, List, [], ◌∷◌,
  ◌++◌, leb_ℤ, if◌then◌else◌, all,
}
use wms_core.Exec.{ok, err, Exec, integrity_error, publish_error, ◌>>◌, modify}
use wms_core.Inventory.Rows.{
  Db, InventoryRow, WarehouseRow, Reservation, Transaction, MovementLedgerRow, InventoryEvent,
}

abbrev pub no_rows : Db
no_rows = record {
  inventory = [];
  warehouse_inventory = [];
  stock_reservations = [];
  inventory_transactions = [];
  movement_ledger = [];
}

pub record Session : Type 0 where
  -- What the session's queries return.
  pub rows : Db
  -- `session.new`: added and not yet flushed.
  pub new : Db
  -- What other sessions see.
  pub committed : Db
  -- The events handed to the publisher, in order.
  pub published : List InventoryEvent
  -- The publisher: whether it takes an event after those that it was handed; else it raises.
  pub takes : List InventoryEvent → InventoryEvent → Bool

abbrev pub Action : Type 0 → Type 0
Action A = Exec Session A

-- Two optional texts or numbers clash in a UNIQUE column when both are there and equal.
abbrev pub same_text : Option String → Option String → Bool
same_text (some a) (some b) = str_eq a b
same_text _ _ = false

abbrev pub same_number : Option ℕ → Option ℕ → Bool
same_number (some a) (some b) = a == b
same_number _ _ = false

abbrev pub clash_inventory : InventoryRow → InventoryRow → Bool
clash_inventory a b = a.product_id == b.product_id

-- `uq_warehouse_product`
abbrev pub clash_warehouse : WarehouseRow → WarehouseRow → Bool
clash_warehouse a b = a.warehouse_id == b.warehouse_id && a.product_id == b.product_id

-- `uq_stock_reservation_idempotency` and `uq_stock_reservation_source`
abbrev pub clash_reservation : Reservation → Reservation → Bool
clash_reservation a b =
    same_text a.idempotency_key b.idempotency_key
    || (str_eq a.source_type b.source_type && same_number a.source_id b.source_id)

-- `uq_inventory_transaction_idempotency`
abbrev pub clash_transaction : Transaction → Transaction → Bool
clash_transaction a b = same_text a.idempotency_key b.idempotency_key

abbrev pub clash_movement : MovementLedgerRow → MovementLedgerRow → Bool
clash_movement a b = str_eq a.event_id b.event_id

-- No two rows clash.
unfoldable pub unique {ℓ} : {A : Type ℓ} → (A → A → Bool) → List A → Bool
unfolding all
unique clash [] = true
unique clash (x ∷ xs) = all (λ y. not (clash x y)) xs && unique clash xs

-- The CHECK constraints of `InventoryModel` and `WarehouseInventoryModel`.
abbrev pub check_inventory : InventoryRow → Bool
check_inventory row = leb_ℤ (pos 0) row.quantity

abbrev pub check_warehouse : WarehouseRow → Bool
check_warehouse row =
    leb_ℤ (pos 0) row.quantity
    && leb_ℤ (pos 0) row.physical_qty
    && leb_ℤ (pos 0) row.reserved_qty
    && leb_ℤ (pos 0) row.incoming_qty
    && leb_ℤ (pos 0) row.in_transit_qty

-- All constraints of the tables.
unfoldable pub constraints : Db → Bool
unfolding unique all
constraints db =
    unique clash_inventory db.inventory
    && all check_inventory db.inventory
    && unique clash_warehouse db.warehouse_inventory
    && all check_warehouse db.warehouse_inventory
    && unique clash_reservation db.stock_reservations
    && unique clash_transaction db.inventory_transactions
    && unique clash_movement db.movement_ledger

-- The tables with the added objects inserted.
abbrev pub merge : Db → Db → Db
merge a b = record {
  inventory = a.inventory ++ b.inventory;
  warehouse_inventory = a.warehouse_inventory ++ b.warehouse_inventory;
  stock_reservations = a.stock_reservations ++ b.stock_reservations;
  inventory_transactions = a.inventory_transactions ++ b.inventory_transactions;
  movement_ledger = a.movement_ledger ++ b.movement_ledger;
}

-- `session.flush()`
unfoldable pub flush : Action (Unit {0})
flush s =
    if constraints (merge s.rows s.new)
    then (ok tt, record s { rows = merge s.rows s.new; new = no_rows })
    else (err integrity_error, s)

-- `session.commit()`
unfoldable pub commit : Action (Unit {0})
commit = do flush; modify (λ s. record s { committed = s.rows })

-- `event_publisher.publish(...)`
abbrev pub publish : InventoryEvent → Action (Unit {0})
publish e s =
    let taken = s.takes s.published e in
    (
      if taken then ok tt else err publish_error,
      record s { published = if taken then s.published ++ e ∷ [] else s.published },
    )
