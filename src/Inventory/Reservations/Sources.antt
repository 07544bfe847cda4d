-- ===== src/Inventory/Reservations/Sources.antt =====
-- The constraint `uq_stock_reservation_source`, against a second reservation of one source.
use wms_core.Base.{
  ℕ, ◌-ℤ◌, ltb_ℤ, ◌≡◌, refl, Bool, true, false, not, ◌&&◌, str_eq, none, List, [], ◌∷◌, ◌++◌, arith,
  Bool-cases, Option-cases, inl, inr, find, all, is_some, map, append_assoc, ◌≢◌,
}
use wms_core.Base.Tables.{is_some-find-append}
use wms_core.Exec.{ok, pure, ◌>>=◌, ◌>>◌}
use wms_core.Inventory.Rows.{Reservation}
use wms_core.Inventory.Session.{
  Session, flush, constraints, merge, unique, same_number, clash_reservation,
}
use wms_core.Inventory.Stock.{get_warehouse_row, write_warehouse_row}
use wms_core.Inventory.Reservations.{
  ReservationRequest, reservation_of, insert_reservation, reserve_available, create_reservation,
  find_by_key, raise_reserved,
}

module _ {A : Type 0} (clash : A → A → Bool) where
  all-clash :
      (x y : A) (xs ys : List A)
      → clash x y ≡ true
      → all (λ z. not (clash x z)) (xs ++ y ∷ ys) ≡ false
  unfolding all
  all-clash x y [] ys h = rw h refl
  all-clash x y (z ∷ xs) ys h = ground (arith, all-clash x y xs ys h)

  -- A row that clashes with one before it.
  unique-clash :
      (y : A) (xs ys : List A)
      → is_some (find (λ x. clash x y) xs) ≡ true
      → unique clash (xs ++ y ∷ ys) ≡ false
  unfolding find unique
  unique-clash y [] ys h = absurd cc
  unique-clash y (x ∷ xs) ys h = elim (Bool-cases (clash x y)) [
    | inl u ↦ rw (all-clash x y xs ys u) refl
    | inr u ↦ ground (arith, unique-clash y xs ys (rw u at h))
  ]

is_some-find_weaker :
    {A : Type 0} (p q : A → Bool) (xs : List A)
    → ((x : A) → p x ≡ true → q x ≡ true)
    → is_some (find p xs) ≡ true
    → is_some (find q xs) ≡ true
unfolding find
is_some-find_weaker p q [] weaker h = h
is_some-find_weaker p q (x ∷ xs) weaker h =
    ground (arith, weaker x, is_some-find_weaker p q xs weaker)

-- A reservation for the same source.
abbrev pub of_source : ReservationRequest → Reservation → Bool
of_source req r = str_eq r.source_type req.source_type && same_number r.source_id req.source_id

source_clash :
    (req : ReservationRequest) (id : ℕ) (r : Reservation)
    → of_source req r ≡ true
    → clash_reservation r (reservation_of req id) ≡ true
source_clash req id r h = ground arith

no_constraints :
    (s : Session)
    → unique clash_reservation (s.rows.stock_reservations ++ s.new.stock_reservations) ≡ false
    → constraints (merge s.rows s.new) ≡ false
unfolding constraints
no_constraints s h = rw h (ground arith)

module _ (next_id : List ℕ → ℕ) where
  -- Where the table holds a reservation of a source, in any status, a second reservation with that
  -- source's type and id, for whatever product, is never granted.
  pub second_reservation_of_a_source_fails :
      (req : ReservationRequest) (s : Session)
      → find_by_key req.idempotency_key s ≡ none
      → is_some (find (of_source req) s.rows.stock_reservations) ≡ true
      → (id : ℕ) (t : Session) → create_reservation next_id req s ≢ (ok id, t)
  unfolding create_reservation reserve_available ◌>>=◌ flush
  second_reservation_of_a_source_fails req s fresh taken id t h =
      elim (Option-cases (get_warehouse_row req.product_id req.warehouse_id s)) [
        | inl e ↦ ground (arith, fresh)
        | inr (row, e) ↦
            elim (Bool-cases (ltb_ℤ (row.physical_qty -ℤ row.reserved_qty) req.requested_qty)) [
              | inl u ↦ ground (arith, fresh)
              | inr u ↦ refused (rw u at (rw e at (rw fresh at h)))
            ]
      ]
    where
      new_row : Reservation
      new_row = reservation_of req (next_id (map (λ r. r.id) s.rows.stock_reservations))

      clashes :
          unique clash_reservation
            (s.rows.stock_reservations ++ (s.new.stock_reservations ++ new_row ∷ []))
          ≡ false
      clashes = rw (← append_assoc) (
          unique-clash clash_reservation new_row
            (s.rows.stock_reservations ++ s.new.stock_reservations) []
            (is_some-find-append (λ x. clash_reservation x new_row) s.rows.stock_reservations
              s.new.stock_reservations
              (is_some-find_weaker (of_source req) (λ x. clash_reservation x new_row)
                s.rows.stock_reservations
                (source_clash req (next_id (map (λ r. r.id) s.rows.stock_reservations))) taken)))

      written : Session
      written =
          write_warehouse_row req.product_id req.warehouse_id (raise_reserved req.requested_qty)
            (insert_reservation new_row s)

      refused : (flush >> pure new_row.id) written ≡ (ok id, t) → ⊥
      refused k = absurd (ground (arith, no_constraints written clashes, k))
