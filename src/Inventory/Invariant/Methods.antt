-- ===== src/Inventory/Invariant/Methods.antt =====
-- The methods of `InventoryRepo` keep the invariant of a session.
use wms_core.Base.{
  ℕ, ℤ, pos, ◌+ℤ◌, ◌-ℤ◌, abs, negate, ◌≤ℤ◌, ltb_ℤ, leb_ℤ, int_laws, +ℤ-zero, ◌≡◌, refl, sym, ◌∙◌,
  inl, inr, false, String, Option, some, List, arith, Bool-cases, Option-cases, map,
}
use wms_core.Exec.{pure, ◌>>=◌}
use wms_core.Exec.Keeps.{Keeps, Keeps-pure, Keeps-bind}
use wms_core.Inventory.Rows.{WarehouseRow, Reservation, MovementPayload, Transaction}
use wms_core.Inventory.Session.{Session, flush}
use wms_core.Inventory.Stock.{
  get_inventory, get_warehouse_row, write_warehouse_row, new_warehouse_row, add_quantity,
  remove_quantity, adjust_quantity, adjust_warehouse_quantity, adjust_warehouse_in_transit,
}
use wms_core.Inventory.Reservations.{
  truthy, get_row, insert_reservation, write_reservation, int_or, is_closed, find_by_key,
  ReservationRequest, reservation_of, reserve_available, create_reservation, release_reservation,
  consume_reservation, release_row, consume_row, lower_reserved, raise_reserved, ship,
}
use wms_core.Inventory.Ledger.{
  has_movement_event, record_movement_event, TransactionEntry, transaction_of, find_by_truthy_key,
  insert_transaction, write_transaction,
}
use wms_core.Inventory.Invariant.{IsBalanced}
use wms_core.Inventory.Invariant.Session.{
  IsSound, insert-IsSound, write-IsSound, reserve-IsSound, take-IsSound, same-IsSound,
  flush-IsSound,
}

pub adjust_warehouse_quantity-IsSound :
    (p w : ℕ) (d : ℤ) → Keeps IsSound (adjust_warehouse_quantity p w d)
unfolding adjust_warehouse_quantity ◌>>=◌
adjust_warehouse_quantity-IsSound p w d = record { at = λ s h. go s h }
  where
    go : (s : Session) → IsSound s → IsSound (adjust_warehouse_quantity p w d s).1
    go s h = elim (Option-cases (get_warehouse_row p w s)) [
      | inl e ↦ rw e (elim (Bool-cases (ltb_ℤ d (pos 0))) [
        | inl t ↦ rw t h
        | inr t ↦ rw t (insert-IsSound (new_warehouse_row p w d (pos 0)) s refl refl h)
      ])
      | inr (r, e) ↦ rw e (elim (Bool-cases (ltb_ℤ (r.quantity +ℤ d) (pos 0))) [
        | inl t ↦ rw t h
        | inr t ↦ rw t (
            write-IsSound p w _ r s e (record { product = λ x. refl; warehouse = λ x. refl })
              (λ x _. refl) refl h)
      ])
    ]

pub adjust_warehouse_in_transit-IsSound :
    (p w : ℕ) (d : ℤ) → Keeps IsSound (adjust_warehouse_in_transit p w d)
unfolding adjust_warehouse_in_transit ◌>>=◌
adjust_warehouse_in_transit-IsSound p w d = record { at = λ s h. go s h }
  where
    go : (s : Session) → IsSound s → IsSound (adjust_warehouse_in_transit p w d s).1
    go s h = elim (Option-cases (get_warehouse_row p w s)) [
      | inl e ↦ rw e (elim (Bool-cases (ltb_ℤ d (pos 0))) [
        | inl t ↦ rw t h
        | inr t ↦ rw t (insert-IsSound (new_warehouse_row p w (pos 0) d) s refl refl h)
      ])
      | inr (r, e) ↦ rw e (elim (Bool-cases (ltb_ℤ (r.in_transit_qty +ℤ d) (pos 0))) [
        | inl t ↦ rw t h
        | inr t ↦ rw t (
            write-IsSound p w _ r s e (record { product = λ x. refl; warehouse = λ x. refl })
              (λ x y. y) refl h)
      ])
    ]

add_quantity-IsSound : (p : ℕ) (q : ℤ) → Keeps IsSound (add_quantity p q)
unfolding add_quantity ◌>>=◌
add_quantity-IsSound p q = record { at = λ s h. go s h }
  where
    go : (s : Session) → IsSound s → IsSound (add_quantity p q s).1
    go s h = elim (Bool-cases (ltb_ℤ q (pos 0))) [
      | inl t ↦ rw t h
      | inr t ↦ rw t (elim (Option-cases (get_inventory p s)) [
        | inl e ↦ rw e (same-IsSound s _ refl refl refl refl refl h)
        | inr (r, e) ↦ rw e (same-IsSound s _ refl refl refl refl refl h)
      ])
    ]

remove_quantity-IsSound : (p : ℕ) (q : ℤ) → Keeps IsSound (remove_quantity p q)
unfolding remove_quantity ◌>>=◌
remove_quantity-IsSound p q = record { at = λ s h. go s h }
  where
    go : (s : Session) → IsSound s → IsSound (remove_quantity p q s).1
    go s h = elim (Option-cases (get_inventory p s)) [
      | inl e ↦ rw e h
      | inr (r, e) ↦ rw e (elim (Bool-cases (ltb_ℤ q (pos 0))) [
        | inl t ↦ rw t h
        | inr t ↦ rw t (elim (Bool-cases (ltb_ℤ r.quantity q)) [
          | inl u ↦ rw u h
          | inr u ↦ rw u (same-IsSound s _ refl refl refl refl refl h)
        ])
      ])
    ]

pub adjust_quantity-IsSound : (p : ℕ) (d : ℤ) → Keeps IsSound (adjust_quantity p d)
unfolding adjust_quantity
adjust_quantity-IsSound p d = elim (Bool-cases (leb_ℤ (pos 0) d)) [
  | inl t ↦ rw t (add_quantity-IsSound p d)
  | inr t ↦ rw t (remove_quantity-IsSound p (abs d))
]

pub record_movement_event-IsSound :
    (e : String) (d : Option ℕ) (x : MovementPayload) → Keeps IsSound (record_movement_event e d x)
unfolding record_movement_event ◌>>=◌
record_movement_event-IsSound e d x = record { at = λ s h. go s h }
  where
    go : (s : Session) → IsSound s → IsSound (record_movement_event e d x s).1
    go s h = elim (Bool-cases (has_movement_event e s)) [
      | inl t ↦ rw t h
      | inr t ↦ rw t (same-IsSound s _ refl refl refl refl refl h)
    ]

minus : (a q : ℤ) → a -ℤ q ≡ a +ℤ negate q
minus a q = omega int_laws

regroup : (a b q : ℤ) → a +ℤ b ≡ a -ℤ q +ℤ (b +ℤ q)
regroup a b q = omega int_laws

grows : (c r q : ℤ) → leb_ℤ q (pos 0) ≡ false → c ≤ℤ r → c ≤ℤ r +ℤ q
grows c r q positive h = grind int_laws

release_row-IsBalanced :
    (q : ℤ)
    → leb_ℤ q (pos 0) ≡ false
    → (x : Reservation) → IsBalanced x
    → IsBalanced (release_row q x)
release_row-IsBalanced q positive x b = (
  b.0 ∙ regroup x.reserved_qty x.released_qty q,
  grows x.consumed_qty x.released_qty q positive b.1,
)

-- The rows that `take-IsSound` asks for, for the two ways to give back an amount.
pub release_reservation-IsSound :
    (id : ℕ) (released_qty : Option ℤ) → Keeps IsSound (release_reservation id released_qty)
unfolding release_reservation ◌>>=◌
release_reservation-IsSound id released_qty = record { at = λ s h. go s h }
  where
    taken :
        (s : Session) (r : Reservation)
        → get_row id s ≡ some r
        → leb_ℤ (int_or released_qty (r.reserved_qty -ℤ r.released_qty)) (pos 0) ≡ false
        → IsSound s
        → IsSound (
            write_warehouse_row r.product_id r.warehouse_id
              (lower_reserved (int_or released_qty (r.reserved_qty -ℤ r.released_qty)))
              (write_reservation id
                (release_row (int_or released_qty (r.reserved_qty -ℤ r.released_qty)))
                s))
    taken s r e positive h =
        let q : ℤ = int_or released_qty (r.reserved_qty -ℤ r.released_qty) in
        take-IsSound id (release_row q) (lower_reserved q) (negate q) r s e (λ x. refl) (λ x. refl)
          (λ x. minus x.reserved_qty q) (release_row-IsBalanced q positive)
          (record { product = λ x. refl; warehouse = λ x. refl }) (λ x y. y)
          (λ x. minus x.reserved_qty q) h

    go : (s : Session) → IsSound s → IsSound (release_reservation id released_qty s).1
    go s h = elim (Option-cases (get_row id s)) [
      | inl e ↦ rw e h
      | inr (r, e) ↦ rw e (elim (Bool-cases (is_closed r.status)) [
        | inl t ↦ rw t h
        | inr t ↦
            rw t
              (elim (Bool-cases
                (leb_ℤ (int_or released_qty (r.reserved_qty -ℤ r.released_qty)) (pos 0))) [
                  | inl u ↦ rw u h
                  | inr u ↦ rw u (taken s r e u h)
                ])
      ])
    ]

consume_row-IsBalanced : (q : ℤ) (x : Reservation) → IsBalanced x → IsBalanced (consume_row q x)
consume_row-IsBalanced q x b =
    (b.0 ∙ regroup x.reserved_qty x.released_qty q, omega (int_laws, b.1))

pub consume_reservation-IsSound : (id : ℕ) (q : ℤ) → Keeps IsSound (consume_reservation id q)
unfolding consume_reservation ◌>>=◌
consume_reservation-IsSound id q = record { at = λ s h. go s h }
  where
    go : (s : Session) → IsSound s → IsSound (consume_reservation id q s).1
    go s h = elim (Option-cases (get_row id s)) [
      | inl e ↦ rw e h
      | inr (r, e) ↦ rw e (elim (Bool-cases (ltb_ℤ r.reserved_qty q)) [
        | inl t ↦ rw t h
        | inr t ↦ rw t (
            take-IsSound id (consume_row q) (ship q) (negate q) r s e (λ x. refl) (λ x. refl)
              (λ x. minus x.reserved_qty q) (consume_row-IsBalanced q)
              (record { product = λ x. refl; warehouse = λ x. refl }) (λ x y. refl)
              (λ x. minus x.reserved_qty q) h)
      ])
    ]

module _ (next_id : List ℕ → ℕ) where
  reserve_available-IsSound :
      (req : ReservationRequest) → Keeps IsSound (reserve_available next_id req)
  unfolding reserve_available ◌>>=◌
  reserve_available-IsSound req = record { at = λ s h. go s h }
    where
      id_in : Session → ℕ
      id_in s = next_id (map (λ r. r.id) s.rows.stock_reservations)

      written :
          (s : Session) (row : WarehouseRow)
          → get_warehouse_row req.product_id req.warehouse_id s ≡ some row
          → IsSound s
          → IsSound (
              write_warehouse_row req.product_id req.warehouse_id
                (raise_reserved req.requested_qty)
                (insert_reservation (reservation_of req (id_in s)) s))
      written s row e h =
          reserve-IsSound (reservation_of req (id_in s)) (raise_reserved req.requested_qty) row s e
            (record { product = λ x. refl; warehouse = λ x. refl }) (λ x y. y) refl
            (sym (+ℤ-zero req.requested_qty), omega arith) h

      go : (s : Session) → IsSound s → IsSound (reserve_available next_id req s).1
      go s h = elim (Option-cases (get_warehouse_row req.product_id req.warehouse_id s)) [
        | inl e ↦ rw e h
        | inr (row, e) ↦
            rw e
              (elim (Bool-cases (ltb_ℤ (row.physical_qty -ℤ row.reserved_qty) req.requested_qty)) [
                | inl t ↦ rw t h
                | inr t ↦ rw t (
                    (Keeps-bind flush (λ _. pure (id_in s)) flush-IsSound
                        (λ _. Keeps-pure (id_in s))).at
                      _ (written s row e h))
              ])
      ]

  pub create_reservation-IsSound :
      (req : ReservationRequest) → Keeps IsSound (create_reservation next_id req)
  unfolding create_reservation ◌>>=◌
  create_reservation-IsSound req = record { at = λ s h. go s h }
    where
      go : (s : Session) → IsSound s → IsSound (create_reservation next_id req s).1
      go s h = elim (Option-cases (find_by_key req.idempotency_key s)) [
        | inl e ↦ rw e ((reserve_available-IsSound req).at s h)
        | inr (r, e) ↦ rw e h
      ]

  pub write_transaction-IsSound :
      (e : TransactionEntry) → Keeps IsSound (write_transaction next_id e)
  unfolding write_transaction ◌>>=◌
  write_transaction-IsSound e = record { at = λ s h. go s h }
    where
      t_in : Session → Transaction
      t_in s = transaction_of e (next_id (map (λ t. t.id) s.rows.inventory_transactions))

      go : (s : Session) → IsSound s → IsSound (write_transaction next_id e s).1
      go s h = elim (Option-cases (find_by_truthy_key (truthy e.idempotency_key) s)) [
        | inl n ↦ rw n (
            (Keeps-bind flush (λ _. pure (t_in s)) flush-IsSound (λ _. Keeps-pure (t_in s))).at
              (insert_transaction (t_in s) s) (same-IsSound s _ refl refl refl refl refl h))
        | inr (t, n) ↦ rw n h
      ]
