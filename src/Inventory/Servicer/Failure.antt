-- ===== src/Inventory/Servicer/Failure.antt =====
-- A request that fails changes nothing, unless it is the confirmation of a transfer.
use wms_core.Base.{
  ℕ, ltb, leb_ℤ, pos, Bool, true, false, List, ◌≡◌, refl, ap, ◌∙◌, ◌⊎◌, arith, Bool-cases, inl, inr,
  none, not, if◌then◌else◌,
}
use wms_core.Exec.{Error, Result, ok, err, pure, gets, ◌>>=◌, ◌>>◌}
use wms_core.Exec.Atomic.{IsAtomic, IsTotal, IsAtomic-bind, IsAtomic-last, IsQuiet-raise_if}
use wms_core.Inventory.Rows.{TransactionType, InventoryEvent}
use wms_core.Inventory.Session.{Session, publish}
use wms_core.Inventory.Service.Confirm.{
  Confirmation, direct_adjustment, confirm_direct, confirm_reserved, confirm_unreserved,
  confirm_inventory_transaction,
}
use wms_core.Inventory.Servicer.{Store, Request, reply_of, open_session, run, handle}
use wms_core.Inventory.Servicer.Atomicity.{
  shared, is_publish_error, reserve_stock-IsAtomic, release_reservation-IsAtomic,
  consume_reservation-IsAtomic, adjust_inventory-IsAtomic, apply_document_movement-IsAtomic,
}

-- The types that `confirm_inventory_transaction` runs as two transactions.
unfoldable pub is_transfer : TransactionType → Bool
is_transfer TransactionType.transfer_issue = true
is_transfer TransactionType.transfer_receipt = true
is_transfer _ = false

-- A request that the service runs as one transaction.
unfoldable pub is_single : Request → Bool
unfolding is_transfer
is_single (Request.confirm c) =
    if ltb 0 c.reservation_id then true else not (is_transfer c.transaction_type)
is_single _ = true

gets-IsTotal : {A : Type 0} (f : Session → A) → IsTotal is_publish_error (gets f)
unfolding gets
gets-IsTotal f = record { at = λ s x h. cc }

pure-IsTotal : {A : Type 0} (a : A) → IsTotal {S = Session} is_publish_error (pure a)
unfolding pure
pure-IsTotal a = record { at = λ s x h. cc }

raised_of : (r : Result ℕ) → (reply_of r).success ≡ false → (e : Error) × (r ≡ err e)
raised_of (ok id) h = cc
raised_of (err e) h = (e, refl)

only_late : (e : Error) → is_publish_error e ≡ true → e ≡ Error.publish_error
unfolding is_publish_error
only_late Error.publish_error h = refl
only_late _ h = absurd cc

publish-pure-IsTotal :
    {A : Type 0} (e : InventoryEvent) (a : A) → IsTotal is_publish_error (publish e >> pure a)
unfolding ◌>>=◌ is_publish_error
publish-pure-IsTotal e a = record { at = λ s x h. ground (arith, h) }

module _ (next_id : List ℕ → ℕ) where
  confirm_direct-IsAtomic :
      (t : TransactionType) (c : Confirmation)
      → is_transfer t ≡ false
      → IsAtomic shared is_publish_error (confirm_direct next_id t c)
  unfolding confirm_direct is_transfer
  confirm_direct-IsAtomic TransactionType.transfer_issue c h = cc
  confirm_direct-IsAtomic TransactionType.transfer_receipt c h = cc
  confirm_direct-IsAtomic _ c h =
      IsAtomic-last _ _ (adjust_inventory-IsAtomic next_id (direct_adjustment c))
        (λ _. pure-IsTotal tt)

  confirm-IsAtomic :
      (c : Confirmation)
      → is_single (Request.confirm c) ≡ true
      → IsAtomic shared is_publish_error (confirm_inventory_transaction next_id c)
  unfolding confirm_inventory_transaction confirm_reserved confirm_unreserved is_single
  confirm-IsAtomic c h = IsAtomic-bind _ _ (IsQuiet-raise_if (leb_ℤ c.quantity (pos 0)) _) (λ _.
      elim (Bool-cases (ltb 0 c.reservation_id)) [
        | inl e ↦
            rw e
              (IsAtomic-last _ _ (consume_reservation-IsAtomic next_id _ _ _) (λ _. gets-IsTotal _))
        | inr e ↦ rw e (
            IsAtomic-last _ _ (confirm_direct-IsAtomic c.transaction_type c (ground arith))
              (λ _. gets-IsTotal _))
      ])

  run-IsAtomic :
      (r : Request) → is_single r ≡ true → IsAtomic shared is_publish_error (run next_id r)
  unfolding run
  run-IsAtomic (Request.reserve r) h = reserve_stock-IsAtomic next_id _
  run-IsAtomic (Request.release id q) h =
      IsAtomic-last _ _ (release_reservation-IsAtomic next_id id _ none)
        (λ _. publish-pure-IsTotal _ 0)
  run-IsAtomic (Request.confirm c) h = confirm-IsAtomic c h
  run-IsAtomic (Request.movement m) h =
      IsAtomic-last _ _ (apply_document_movement-IsAtomic next_id m) (λ _. pure-IsTotal 0)

  -- A reservation, a release, a document movement, or a confirmation that consumes a reservation or
  -- is of no transfer type: where it fails, the database is as it was before the request, unless
  -- what failed is the publisher.
  pub failed_request_changes_nothing :
      (r : Request) (st : Store)
      → is_single r ≡ true
      → (handle next_id r st).0.success ≡ false
      → ((handle next_id r st).1.db ≡ st.db)
        ⊎ ((run next_id r (open_session st)).0 ≡ err Error.publish_error)
  unfolding handle
  failed_request_changes_nothing r st single failed =
      let (e, raised) = raised_of (run next_id r (open_session st)).0 failed in
      elim (Bool-cases (is_publish_error e)) [
        | inl late ↦ inr (raised ∙ ap err (only_late e late))
        | inr early ↦ inl ((run-IsAtomic r single).at (open_session st) e raised early)
      ]
