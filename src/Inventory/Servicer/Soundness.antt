-- ===== src/Inventory/Servicer/Soundness.antt =====
-- The invariant of the tables holds after any requests.
use wms_core.Base.{
  ℕ, ℤ, String, Option, none, some, List, [], ◌∷◌, inl, inr, append-nil, Option-cases,
}
use wms_core.Exec.{key_error}
use wms_core.Exec.Keeps.{Keeps, Keeps-bind, Keeps-pure, Keeps-raise, Keeps-gets, keeps_rules}
use wms_core.Inventory.Rows.{
  TransactionType, MovementPayload, MovementDocType, MovementItem, Movement,
}
use wms_core.Inventory.Reservations.{get_row, truthy}
use wms_core.Inventory.Invariant.{IsValid}
use wms_core.Inventory.Invariant.Session.{IsSound, commit-IsSound, publish-IsSound}
use wms_core.Inventory.Invariant.Methods.{
  adjust_warehouse_quantity-IsSound, adjust_warehouse_in_transit-IsSound, adjust_quantity-IsSound,
  record_movement_event-IsSound, create_reservation-IsSound,
  release_reservation-IsSound as release-IsSound, consume_reservation-IsSound as consume-IsSound,
  write_transaction-IsSound as write-IsSound,
}
use wms_core.Inventory.Ledger.{TransactionEntry}
use wms_core.Inventory.Service.Record.{record_movement, write_transaction}
use wms_core.Inventory.Service.Adjust.{
  Adjustment, InTransitAdjustment, adjust_at, log_adjustment, adjust_new, adjust_inventory,
  adjust_in_transit_new, adjust_in_transit,
}
use wms_core.Inventory.Service.Reserve.{
  StockRequest, reserve_new, reserve_in, reserve_stock, release_reservation, consume_reservation,
}
use wms_core.Inventory.Service.Move.{
  apply_inbound, apply_outbound, int_of, move_item, move_checked, apply_new, apply_named,
  apply_document_movement,
}
use wms_core.Inventory.Service.Confirm.{
  Confirmation, confirm_issue, confirm_receipt, confirm_direct, confirm_reserved,
  confirm_unreserved, confirm_inventory_transaction,
}
use wms_core.Inventory.Servicer.{Store, Request, open_session, run, handle, serve}

record_movement-IsSound :
    (e : Option String) (d : Option ℕ) (x : MovementPayload) → Keeps IsSound (record_movement e d x)
unfolding record_movement
record_movement-IsSound e d x = elim (Option-cases (truthy e)) [
  | inl n ↦ rw (n, record_movement) (Keeps-pure tt)
  | inr (k, n) ↦ rw (n, record_movement) (record_movement_event-IsSound k d x)
]

ruleset sound_rules = (
  keeps_rules, commit-IsSound, publish-IsSound, adjust_warehouse_quantity-IsSound,
  adjust_warehouse_in_transit-IsSound, adjust_quantity-IsSound, record_movement-IsSound,
)

adjust_at-IsSound : (w : Option ℕ) (p : ℕ) (d : ℤ) → Keeps IsSound (adjust_at w p d)
unfolding adjust_at
adjust_at-IsSound none p d = search sound_rules
adjust_at-IsSound (some w) p d = search sound_rules

apply_inbound-IsSound : (p w : ℕ) (q : ℤ) (t : Option ℤ) → Keeps IsSound (apply_inbound p w q t)
unfolding apply_inbound
apply_inbound-IsSound p w q t = search sound_rules

apply_outbound-IsSound : (p w : ℕ) (q : ℤ) → Keeps IsSound (apply_outbound p w q)
unfolding apply_outbound
apply_outbound-IsSound p w q = search sound_rules

int_of-IsSound : (id : Option ℕ) → Keeps IsSound (int_of id)
int_of-IsSound none = search keeps_rules
int_of-IsSound (some id) = search keeps_rules

move_item-IsSound :
    (m : Movement) (t : MovementDocType) (i : MovementItem) → Keeps IsSound (move_item m t i)
unfolding move_item
move_item-IsSound m MovementDocType.import i =
    search (keeps_rules, int_of-IsSound, apply_inbound-IsSound)
move_item-IsSound m MovementDocType.export i =
    search (keeps_rules, int_of-IsSound, apply_outbound-IsSound)
move_item-IsSound m MovementDocType.sale i =
    search (keeps_rules, int_of-IsSound, apply_outbound-IsSound)
move_item-IsSound m MovementDocType.transfer i =
    search (keeps_rules, int_of-IsSound, apply_inbound-IsSound, apply_outbound-IsSound)
move_item-IsSound m (MovementDocType.other name) i = search keeps_rules

move_checked-IsSound : (m : Movement) (i : MovementItem) → Keeps IsSound (move_checked m i)
unfolding move_checked
move_checked-IsSound m i = search (keeps_rules, move_item-IsSound)

adjust_in_transit-IsSound : (a : InTransitAdjustment) → Keeps IsSound (adjust_in_transit a)
unfolding adjust_in_transit adjust_in_transit_new
adjust_in_transit-IsSound a = search sound_rules depth 16

module _ (next_id : List ℕ → ℕ) where
  write_transaction-IsSound : (e : TransactionEntry) → Keeps IsSound (write_transaction next_id e)
  unfolding write_transaction
  write_transaction-IsSound e = search (keeps_rules, write-IsSound, publish-IsSound)

  log_adjustment-IsSound :
      (a : Adjustment) (w : Option ℕ) → Keeps IsSound (log_adjustment next_id a w)
  unfolding log_adjustment
  log_adjustment-IsSound a none = search keeps_rules
  log_adjustment-IsSound a (some w) = search (keeps_rules, write_transaction-IsSound)

  adjust_new-IsSound : (a : Adjustment) → Keeps IsSound (adjust_new next_id a)
  unfolding adjust_new
  adjust_new-IsSound a = search (sound_rules, adjust_at-IsSound, log_adjustment-IsSound) depth 16

  adjust_inventory-IsSound : (a : Adjustment) → Keeps IsSound (adjust_inventory next_id a)
  unfolding adjust_inventory
  adjust_inventory-IsSound a = search (keeps_rules, adjust_new-IsSound)

  reserve_new-IsSound : (r : StockRequest) (w : ℕ) → Keeps IsSound (reserve_new next_id r w)
  unfolding reserve_new
  reserve_new-IsSound r w =
      search (sound_rules, create_reservation-IsSound, write_transaction-IsSound) depth 16

  reserve_in-IsSound : (r : StockRequest) (w : Option ℕ) → Keeps IsSound (reserve_in next_id r w)
  unfolding reserve_in
  reserve_in-IsSound r none = search keeps_rules
  reserve_in-IsSound r (some w) = search (keeps_rules, reserve_new-IsSound)

  reserve_stock-IsSound : (r : StockRequest) → Keeps IsSound (reserve_stock next_id r)
  unfolding reserve_stock
  reserve_stock-IsSound r = search (keeps_rules, reserve_in-IsSound)

  release_reservation-IsSound :
      (id : ℕ) (q : Option ℤ) (e : Option String)
      → Keeps IsSound (release_reservation next_id id q e)
  unfolding release_reservation
  release_reservation-IsSound id q e = Keeps-bind _ _ (Keeps-gets (get_row id)) (elim [
    | none ↦ Keeps-raise key_error
    | some r ↦ search (sound_rules, release-IsSound, write_transaction-IsSound) depth 16
  ])

  consume_reservation-IsSound :
      (id : ℕ) (q : ℤ) (e : Option String) → Keeps IsSound (consume_reservation next_id id q e)
  unfolding consume_reservation
  consume_reservation-IsSound id q e =
      search (sound_rules, consume-IsSound, write_transaction-IsSound) depth 16

  apply_new-IsSound : (e : String) (m : Movement) → Keeps IsSound (apply_new next_id e m)
  unfolding apply_new
  apply_new-IsSound e m =
      search (sound_rules, move_checked-IsSound, write_transaction-IsSound) depth 16

  apply_named-IsSound : (e : Option String) (m : Movement) → Keeps IsSound (apply_named next_id e m)
  unfolding apply_named
  apply_named-IsSound none m = search keeps_rules
  apply_named-IsSound (some e) m = search (keeps_rules, apply_new-IsSound) depth 16

  apply_document_movement-IsSound :
      (m : Movement) → Keeps IsSound (apply_document_movement next_id m)
  unfolding apply_document_movement
  apply_document_movement-IsSound m = apply_named-IsSound (truthy m.event_id) m

  ruleset confirm_rules =
      (keeps_rules, publish-IsSound, adjust_inventory-IsSound, adjust_in_transit-IsSound)

  confirm_issue-IsSound : (c : Confirmation) → Keeps IsSound (confirm_issue next_id c)
  unfolding confirm_issue
  confirm_issue-IsSound c = search confirm_rules depth 16

  confirm_receipt-IsSound : (c : Confirmation) → Keeps IsSound (confirm_receipt next_id c)
  unfolding confirm_receipt
  confirm_receipt-IsSound c = search confirm_rules depth 16

  confirm_direct-IsSound :
      (t : TransactionType) (c : Confirmation) → Keeps IsSound (confirm_direct next_id t c)
  unfolding confirm_direct
  confirm_direct-IsSound TransactionType.transfer_issue c = confirm_issue-IsSound c
  confirm_direct-IsSound TransactionType.transfer_receipt c = confirm_receipt-IsSound c
  confirm_direct-IsSound _ c = search confirm_rules depth 16

  confirm_inventory_transaction-IsSound :
      (c : Confirmation) → Keeps IsSound (confirm_inventory_transaction next_id c)
  unfolding confirm_inventory_transaction confirm_reserved confirm_unreserved
  confirm_inventory_transaction-IsSound c =
      search (keeps_rules, consume_reservation-IsSound, confirm_direct-IsSound) depth 16

  run-IsSound : (request : Request) → Keeps IsSound (run next_id request)
  unfolding run
  run-IsSound (Request.reserve r) = reserve_stock-IsSound _
  run-IsSound (Request.release id q) =
      search (keeps_rules, release_reservation-IsSound, publish-IsSound)
  run-IsSound (Request.confirm c) = confirm_inventory_transaction-IsSound c
  run-IsSound (Request.movement m) = search (keeps_rules, apply_document_movement-IsSound)

  handle-IsValid :
      (request : Request) (st : Store)
      → IsValid st.db.warehouse_inventory st.db.stock_reservations
      → let after = (handle next_id request st).1 in
        IsValid after.db.warehouse_inventory after.db.stock_reservations
  unfolding handle
  handle-IsValid request st h =
      ((run-IsSound request).at (open_session st) (record {
        current = rw (append-nil, append-nil) h;
        covered = rw append-nil h.covered;
        committed = h;
      })).committed

  -- After any requests, whether they succeed or fail, from a database that is valid: each warehouse
  -- row has a legacy quantity equal to its physical quantity and a reserved quantity equal to what
  -- the reservations of its product and warehouse still hold; each reservation has a warehouse row,
  -- its reserved and released quantities add up to what was requested, and it has consumed no more
  -- than was released.
  pub serve-IsValid :
      (requests : List Request) (st : Store)
      → IsValid st.db.warehouse_inventory st.db.stock_reservations
      → let after = serve next_id requests st in
        IsValid after.db.warehouse_inventory after.db.stock_reservations
  unfolding serve
  serve-IsValid [] st h = h
  serve-IsValid (request ∷ rest) st h =
      serve-IsValid rest (handle next_id request st).1 (handle-IsValid request st h)
