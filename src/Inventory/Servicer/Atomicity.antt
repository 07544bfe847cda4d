-- ===== src/Inventory/Servicer/Atomicity.antt =====
-- What a method of the service leaves in the database when it raises: nothing.
use wms_core.Base.{ℕ, ℤ, String, Option, none, some, List, arith, Bool, true, false}
use wms_core.Exec.{Error, pure, ◌>>=◌, ◌>>◌}
use wms_core.Exec.Atomic.{
  IsQuiet, IsAtomic, IsTotal, quiet_rules, IsQuiet-IsAtomic, IsAtomic-bind, IsAtomic-last,
  IsAtomic-if, IsQuiet-gets,
}
use wms_core.Inventory.Rows.{
  Db, MovementPayload, MovementDocType, MovementItem, Movement, InventoryEvent,
}
use wms_core.Inventory.Session.{Session, flush, commit, publish}
use wms_core.Inventory.Stock.{
  adjust_quantity, adjust_warehouse_quantity, adjust_warehouse_in_transit,
}
use wms_core.Inventory.Reservations.{truthy, get_row, ReservationRequest, create_reservation}
use wms_core.Inventory.Reservations
use wms_core.Inventory.Ledger.{TransactionEntry, record_movement_event}
use wms_core.Inventory.Ledger
use wms_core.Inventory.Service.Record.{record_movement, write_transaction}
use wms_core.Inventory.Service.Adjust.{
  Adjustment, InTransitAdjustment, adjust_at, log_adjustment, adjust_new, adjust_inventory,
  adjust_in_transit_new, adjust_in_transit,
}
use wms_core.Inventory.Service.Reserve.{
  StockRequest, reserve_new, reserve_in, reserve_stock, release_reservation, consume_reservation,
}
use wms_core.Inventory.Service.Move.{
  apply_inbound, apply_outbound, int_of, move_item, move_checked, apply_new, apply_named,
  apply_document_movement,
}

-- What may come after a commit.
unfoldable pub is_publish_error : Error → Bool
is_publish_error Error.publish_error = true
is_publish_error _ = false

-- What other sessions see.
abbrev pub shared : Session → Db
shared s = s.committed

adjust_warehouse_quantity-IsQuiet :
    (p w : ℕ) (d : ℤ) → IsQuiet shared (adjust_warehouse_quantity p w d)
unfolding adjust_warehouse_quantity ◌>>=◌
adjust_warehouse_quantity-IsQuiet p w d = record { at = λ s. ground arith }

adjust_warehouse_in_transit-IsQuiet :
    (p w : ℕ) (d : ℤ) → IsQuiet shared (adjust_warehouse_in_transit p w d)
unfolding adjust_warehouse_in_transit ◌>>=◌
adjust_warehouse_in_transit-IsQuiet p w d = record { at = λ s. ground arith }

adjust_quantity-IsQuiet : (p : ℕ) (d : ℤ) → IsQuiet shared (adjust_quantity p d)
unfolding adjust_quantity ◌>>=◌
adjust_quantity-IsQuiet p d = record { at = λ s. ground arith }

record_movement-IsQuiet :
    (e : Option String) (d : Option ℕ) (x : MovementPayload)
    → IsQuiet shared (record_movement e d x)
unfolding record_movement ◌>>=◌
record_movement-IsQuiet e d x = record { at = λ s. ground arith }

flush-IsQuiet : IsQuiet shared flush
unfolding flush
flush-IsQuiet = record { at = λ s. ground arith }

publish-IsQuiet : (e : InventoryEvent) → IsQuiet shared (publish e)
publish-IsQuiet e = record { at = λ s. ground arith }

-- The release and the consumption of the repository.
release-IsQuiet : (id : ℕ) (q : Option ℤ) → IsQuiet shared (Reservations.release_reservation id q)
unfolding Reservations.release_reservation ◌>>=◌
release-IsQuiet id q = record { at = λ s. ground arith }

consume-IsQuiet : (id : ℕ) (q : ℤ) → IsQuiet shared (Reservations.consume_reservation id q)
unfolding Reservations.consume_reservation ◌>>=◌
consume-IsQuiet id q = record { at = λ s. ground arith }

commit-IsAtomic : IsAtomic shared is_publish_error commit
unfolding commit flush ◌>>=◌
commit-IsAtomic = record { at = λ s e h early. ground arith }

publish_then-IsTotal :
    {A : Type 0} (e : InventoryEvent) (a : A) → IsTotal is_publish_error (publish e >> pure a)
unfolding ◌>>=◌ is_publish_error
publish_then-IsTotal e a = record { at = λ s x h. ground (arith, h) }

pure-IsTotal : {A : Type 0} (a : A) → IsTotal {S = Session} is_publish_error (pure a)
unfolding pure
pure-IsTotal a = record { at = λ s x h. cc }

-- A commit that only the publishing follows.
commit-publish-IsAtomic :
    {A : Type 0} (e : InventoryEvent) (a : A)
    → IsAtomic shared is_publish_error (commit >> (publish e >> pure a))
commit-publish-IsAtomic e a = IsAtomic-last commit _ commit-IsAtomic (λ _. publish_then-IsTotal e a)

commit-pure-IsAtomic : {A : Type 0} (a : A) → IsAtomic shared is_publish_error (commit >> pure a)
commit-pure-IsAtomic a = IsAtomic-last commit _ commit-IsAtomic (λ _. pure-IsTotal a)

ruleset stock_quiet = (
  quiet_rules, adjust_warehouse_quantity-IsQuiet, adjust_warehouse_in_transit-IsQuiet,
  adjust_quantity-IsQuiet, record_movement-IsQuiet,
)

adjust_at-IsQuiet : (w : Option ℕ) (p : ℕ) (d : ℤ) → IsQuiet shared (adjust_at w p d)
unfolding adjust_at
adjust_at-IsQuiet none p d = search stock_quiet
adjust_at-IsQuiet (some w) p d = search stock_quiet

int_of-IsQuiet : (id : Option ℕ) → IsQuiet shared (int_of id)
int_of-IsQuiet none = search quiet_rules
int_of-IsQuiet (some id) = search quiet_rules

move_item-IsQuiet :
    (m : Movement) (t : MovementDocType) (i : MovementItem) → IsQuiet shared (move_item m t i)
unfolding move_item apply_inbound apply_outbound
move_item-IsQuiet m (MovementDocType.other name) i = search quiet_rules
move_item-IsQuiet m _ i = search (stock_quiet, int_of-IsQuiet) depth 16

move_checked-IsQuiet : (m : Movement) (i : MovementItem) → IsQuiet shared (move_checked m i)
unfolding move_checked
move_checked-IsQuiet m i = search (quiet_rules, move_item-IsQuiet)

ruleset atomic_rules = (
  IsAtomic-bind, IsAtomic-if, IsQuiet-IsAtomic, commit-publish-IsAtomic, commit-pure-IsAtomic,
  stock_quiet,
)

adjust_in_transit-IsAtomic :
    (a : InTransitAdjustment) → IsAtomic shared is_publish_error (adjust_in_transit a)
unfolding adjust_in_transit adjust_in_transit_new
adjust_in_transit-IsAtomic a = search atomic_rules depth 16

module _ (next_id : List ℕ → ℕ) where
  create_reservation-IsQuiet :
      (r : ReservationRequest) → IsQuiet shared (create_reservation next_id r)
  unfolding create_reservation flush ◌>>=◌
  create_reservation-IsQuiet r = record { at = λ s. ground arith }

  write_transaction-IsQuiet : (e : TransactionEntry) → IsQuiet shared (write_transaction next_id e)
  unfolding write_transaction Ledger.write_transaction flush ◌>>=◌
  write_transaction-IsQuiet e = record { at = λ s. ground arith }

  log_adjustment-IsQuiet :
      (a : Adjustment) (w : Option ℕ) → IsQuiet shared (log_adjustment next_id a w)
  unfolding log_adjustment
  log_adjustment-IsQuiet a none = search quiet_rules
  log_adjustment-IsQuiet a (some w) = search (quiet_rules, write_transaction-IsQuiet)

  adjust_new-IsAtomic : (a : Adjustment) → IsAtomic shared is_publish_error (adjust_new next_id a)
  unfolding adjust_new
  adjust_new-IsAtomic a = search (atomic_rules, adjust_at-IsQuiet, log_adjustment-IsQuiet) depth 16

  pub adjust_inventory-IsAtomic :
      (a : Adjustment) → IsAtomic shared is_publish_error (adjust_inventory next_id a)
  unfolding adjust_inventory
  adjust_inventory-IsAtomic a = search (atomic_rules, adjust_new-IsAtomic) depth 16

  reserve_new-IsAtomic :
      (r : StockRequest) (w : ℕ) → IsAtomic shared is_publish_error (reserve_new next_id r w)
  unfolding reserve_new
  reserve_new-IsAtomic r w =
      search (atomic_rules, create_reservation-IsQuiet, write_transaction-IsQuiet) depth 16

  reserve_in-IsAtomic :
      (r : StockRequest) (w : Option ℕ) → IsAtomic shared is_publish_error (reserve_in next_id r w)
  unfolding reserve_in
  reserve_in-IsAtomic r none = search atomic_rules
  reserve_in-IsAtomic r (some w) = search (atomic_rules, reserve_new-IsAtomic) depth 16

  pub reserve_stock-IsAtomic :
      (r : StockRequest) → IsAtomic shared is_publish_error (reserve_stock next_id r)
  unfolding reserve_stock
  reserve_stock-IsAtomic r = search (atomic_rules, reserve_in-IsAtomic) depth 16

  pub release_reservation-IsAtomic :
      (id : ℕ) (q : Option ℤ) (e : Option String)
      → IsAtomic shared is_publish_error (release_reservation next_id id q e)
  unfolding release_reservation
  release_reservation-IsAtomic id q e = IsAtomic-bind _ _ (IsQuiet-gets (get_row id)) (elim [
    | none ↦ IsQuiet-IsAtomic (search quiet_rules)
    | some r ↦ search (atomic_rules, release-IsQuiet, write_transaction-IsQuiet) depth 16
  ])

  pub consume_reservation-IsAtomic :
      (id : ℕ) (q : ℤ) (e : Option String)
      → IsAtomic shared is_publish_error (consume_reservation next_id id q e)
  unfolding consume_reservation
  consume_reservation-IsAtomic id q e =
      search (atomic_rules, consume-IsQuiet, write_transaction-IsQuiet) depth 16

  apply_new-IsAtomic :
      (e : String) (m : Movement) → IsAtomic shared is_publish_error (apply_new next_id e m)
  unfolding apply_new
  apply_new-IsAtomic e m =
      search (atomic_rules, move_checked-IsQuiet, write_transaction-IsQuiet) depth 16

  apply_named-IsAtomic :
      (e : Option String) (m : Movement)
      → IsAtomic shared is_publish_error (apply_named next_id e m)
  unfolding apply_named
  apply_named-IsAtomic none m = search atomic_rules
  apply_named-IsAtomic (some e) m = search (atomic_rules, apply_new-IsAtomic) depth 16

  pub apply_document_movement-IsAtomic :
      (m : Movement) → IsAtomic shared is_publish_error (apply_document_movement next_id m)
  unfolding apply_document_movement
  apply_document_movement-IsAtomic m = apply_named-IsAtomic (truthy m.event_id) m
