-- ===== src/Inventory/Invariant/Session.antt =====
-- The invariant of a session, kept by the stock and reservation methods of the repository: the
-- tables are valid with what has been written and added, and so is what other sessions see.
use wms_core.Base.{
  ℕ, ℤ, pos, ◌+ℤ◌, ◌≡◌, refl, ap, ◌∙◌, inl, inr, none, some, List, [], ◌∷◌, ◌++◌, append_assoc,
  append-nil, find, update, All, is_some, Bool-cases, Option-cases,
}
use wms_core.Base.Tables.{
  find-append, update-append, is_some-find-update, is_some-find-append, All-append, All-update,
  All-find, All-map,
}
use wms_core.Exec.{◌>>=◌}
use wms_core.Exec.Keeps.{Keeps}
use wms_core.Inventory.Rows.{WarehouseRow, Reservation, InventoryEvent}
use wms_core.Inventory.Session.{Session, flush, commit, constraints, merge, publish, no_rows}
use wms_core.Inventory.Stock.{
  stored_at, get_warehouse_row, write_warehouse_row, insert_warehouse_row,
}
use wms_core.Inventory.Reservations.{with_id, get_row, insert_reservation, write_reservation}
use wms_core.Inventory.Invariant.{
  IsValid, IsSynced, IsBalanced, IsCovered, KeepsPlace, stored_at-KeepsPlace, IsCovered-update,
  IsValid-insert_row, IsValid-write_row, IsValid-reserve, IsValid-take,
}

-- A reservation's row is one that a query finds.
pub record IsSound (s : Session) : Type 0 where
  pub current :
      IsValid
        (s.rows.warehouse_inventory ++ s.new.warehouse_inventory)
        (s.rows.stock_reservations ++ s.new.stock_reservations)
  pub covered :
      All
        (IsCovered s.rows.warehouse_inventory)
        (s.rows.stock_reservations ++ s.new.stock_reservations)
  pub committed : IsValid s.committed.warehouse_inventory s.committed.stock_reservations

pub insert-IsSound :
    (row : WarehouseRow) (s : Session)
    → IsSynced row
    → row.reserved_qty ≡ pos 0
    → IsSound s
    → IsSound (insert_warehouse_row row s)
insert-IsSound row s synced empty h = record {
  current = rw (← append_assoc) (IsValid-insert_row row synced empty h.current);
  covered = h.covered;
  committed = h.committed;
}

pub write-IsSound :
    (p w : ℕ) (f : WarehouseRow → WarehouseRow) (r : WarehouseRow) (s : Session)
    → get_warehouse_row p w s ≡ some r
    → KeepsPlace f
    → ((x : WarehouseRow) → IsSynced x → IsSynced (f x))
    → (f r).reserved_qty ≡ r.reserved_qty
    → IsSound s
    → IsSound (write_warehouse_row p w f s)
write-IsSound p w f r s found k sync same h =
    let ws : List WarehouseRow = s.rows.warehouse_inventory in
    let new : List WarehouseRow = s.new.warehouse_inventory in
    record {
      current = rw (← update-append (stored_at p w) f r ws new found) (
          IsValid-write_row p w f k sync (find-append (stored_at p w) r ws new found) same
            h.current);
      covered =
          IsCovered-update p w f ws (s.rows.stock_reservations ++ s.new.stock_reservations) k
            h.covered;
      committed = h.committed;
    }

-- A new reservation with the write to its row.
pub reserve-IsSound :
    (r : Reservation) (f : WarehouseRow → WarehouseRow) (row : WarehouseRow) (s : Session)
    → get_warehouse_row r.product_id r.warehouse_id s ≡ some row
    → KeepsPlace f
    → ((x : WarehouseRow) → IsSynced x → IsSynced (f x))
    → (f row).reserved_qty ≡ row.reserved_qty +ℤ r.reserved_qty
    → IsBalanced r
    → IsSound s
    → IsSound (write_warehouse_row r.product_id r.warehouse_id f (insert_reservation r s))
reserve-IsSound r f row s found k sync adds balanced h =
    let p : ℕ = r.product_id in
    let w : ℕ = r.warehouse_id in
    let ws : List WarehouseRow = s.rows.warehouse_inventory in
    let new : List WarehouseRow = s.new.warehouse_inventory in
    let rs : List Reservation = s.rows.stock_reservations ++ s.new.stock_reservations in
    record {
      current =
          rw (← update-append (stored_at p w) f row ws new found, ← append_assoc)
            (IsValid-reserve f r k sync (find-append (stored_at p w) row ws new found) adds balanced
              h.current);
      covered = rw (← append_assoc) (
          All-append (IsCovered (update (stored_at p w) f ws)) rs (r ∷ [])
            (IsCovered-update p w f ws rs k h.covered)
            (
              is_some-find-update (stored_at p w) (stored_at p w) f ws (stored_at-KeepsPlace p w k)
                  ∙ ap is_some found,
              tt,
            ));
      committed = h.committed;
    }

-- An amount taken off a reservation and off its row.
pub take-IsSound :
    (id : ℕ) (f : Reservation → Reservation) (g : WarehouseRow → WarehouseRow) (d : ℤ)
    (r : Reservation) (s : Session)
    → get_row id s ≡ some r
    → ((x : Reservation) → (f x).product_id ≡ x.product_id)
    → ((x : Reservation) → (f x).warehouse_id ≡ x.warehouse_id)
    → ((x : Reservation) → (f x).reserved_qty ≡ x.reserved_qty +ℤ d)
    → ((x : Reservation) → IsBalanced x → IsBalanced (f x))
    → KeepsPlace g
    → ((x : WarehouseRow) → IsSynced x → IsSynced (g x))
    → ((x : WarehouseRow) → (g x).reserved_qty ≡ x.reserved_qty +ℤ d)
    → IsSound s
    → IsSound (write_warehouse_row r.product_id r.warehouse_id g (write_reservation id f s))
take-IsSound id f g d r s found kp kw less balanced k sync takes h =
    elim (Option-cases (find (stored_at r.product_id r.warehouse_id) s.rows.warehouse_inventory)) [
      | inl missing ↦ absurd (none_covered missing there)
      | inr (row, at) ↦ record {
        current =
            rw
              (
                ← update-append (stored_at r.product_id r.warehouse_id) g row
                    s.rows.warehouse_inventory s.new.warehouse_inventory at,
                ← update-append (with_id id) f r s.rows.stock_reservations s.new.stock_reservations
                    found,
              )
              (IsValid-take id f g d r in_all kp kw less balanced k sync takes h.current);
        covered =
            rw
              (← update-append (with_id id) f r s.rows.stock_reservations s.new.stock_reservations
                found)
              (All-update
                (IsCovered
                  (update (stored_at r.product_id r.warehouse_id) g s.rows.warehouse_inventory))
                (with_id id) f (s.rows.stock_reservations ++ s.new.stock_reservations)
                (λ x _ c. rw (kp x, kw x) c)
                (IsCovered-update r.product_id r.warehouse_id g s.rows.warehouse_inventory
                  (s.rows.stock_reservations ++ s.new.stock_reservations) k h.covered));
        committed = h.committed;
      }
    ]
  where
    in_all : find (with_id id) (s.rows.stock_reservations ++ s.new.stock_reservations) ≡ some r
    in_all = find-append (with_id id) r s.rows.stock_reservations s.new.stock_reservations found

    there : IsCovered s.rows.warehouse_inventory r
    there =
        All-find (IsCovered s.rows.warehouse_inventory) (with_id id) r
          (s.rows.stock_reservations ++ s.new.stock_reservations) in_all h.covered

    none_covered :
        find (stored_at r.product_id r.warehouse_id) s.rows.warehouse_inventory ≡ none
        → IsCovered s.rows.warehouse_inventory r
        → ⊥
    none_covered e c = cc

-- A change of the other tables.
pub same-IsSound :
    (s t : Session)
    → t.rows.warehouse_inventory ≡ s.rows.warehouse_inventory
    → t.new.warehouse_inventory ≡ s.new.warehouse_inventory
    → t.rows.stock_reservations ≡ s.rows.stock_reservations
    → t.new.stock_reservations ≡ s.new.stock_reservations
    → t.committed ≡ s.committed
    → IsSound s
    → IsSound t
same-IsSound s t a b c d e h = record {
  current = rw (a, b, c, d) h.current;
  covered = rw (a, c, d) h.covered;
  committed = rw e h.committed;
}

flushed-IsSound :
    (s : Session) → IsSound s → IsSound (record s { rows = merge s.rows s.new; new = no_rows })
flushed-IsSound s h =
    let ws : List WarehouseRow = s.rows.warehouse_inventory in
    let more : List WarehouseRow = s.new.warehouse_inventory in
    let rs : List Reservation = s.rows.stock_reservations ++ s.new.stock_reservations in
    record {
      current = rw (append-nil, append-nil) h.current;
      covered = rw append-nil (
          All-map (IsCovered ws) (IsCovered (ws ++ more)) rs
            (λ x c. is_some-find-append (stored_at x.product_id x.warehouse_id) ws more c)
            h.covered);
      committed = h.committed;
    }

pub flush-IsSound : Keeps IsSound flush
unfolding flush
flush-IsSound = record {
  at = λ s h. elim (Bool-cases (constraints (merge s.rows s.new))) [
    | inl e ↦ rw e (flushed-IsSound s h)
    | inr e ↦ rw e h
  ];
}

pub commit-IsSound : Keeps IsSound commit
unfolding commit flush ◌>>=◌
commit-IsSound = record {
  at = λ s h. elim (Bool-cases (constraints (merge s.rows s.new))) [
    | inl e ↦ rw e (record {
      current = (flushed-IsSound s h).current;
      covered = (flushed-IsSound s h).covered;
      committed = h.current;
    })
    | inr e ↦ rw e h
  ];
}

pub publish-IsSound : (e : InventoryEvent) → Keeps IsSound (publish e)
publish-IsSound e = record { at = λ s h. same-IsSound s _ refl refl refl refl refl h }
