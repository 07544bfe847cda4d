-- ===== src/Inventory/Totals/Steps.antt =====
-- The stock methods of the repository, by what they change.
use wms_core.Base.{
  ℕ, ℤ, pos, ◌+ℤ◌, ◌-ℤ◌, abs, negate, ltb_ℤ, leb_ℤ, int_laws, +ℤ-zero, ◌≡◌, refl, sym, false, some,
  inl, inr, List, ◌++◌, append_assoc, arith, Bool-cases, Option-cases, sum_by,
}
use wms_core.Base.Tables.{sum_by-update, sum_by-append, find-append, update-append, find_holds}
use mathlib.Core.Path.{subst}
use wms_core.Exec.{ok, ◌>>=◌}
use wms_core.Exec.Ensures.{Ensures}
use wms_core.Inventory.Rows.{InventoryRow, WarehouseRow}
use wms_core.Inventory.Session.{Session}
use wms_core.Inventory.Stock.{
  of_product, stored_at, get_inventory, get_warehouse_row, write_inventory, write_warehouse_row,
  insert_inventory, insert_warehouse_row, new_warehouse_row, add_quantity, remove_quantity,
  adjust_quantity, adjust_warehouse_quantity,
}
use wms_core.Inventory.Totals.{
  total, allocated, total_in, allocated_in, total_of, allocated_of, only, Changes, nothing,
}

insert_row-Changes :
    (row : WarehouseRow) (s : Session)
    → Changes (only row.product_id row.quantity) nothing s (insert_warehouse_row row s)
unfolding allocated sum_by
insert_row-Changes row s = record {
  of_stock = λ q. rw (← append_assoc, sum_by-append) (grind int_laws);
  of_total = λ q. sym (+ℤ-zero (total_of q s));
}

pub write_row-Changes :
    (p w : ℕ) (f : WarehouseRow → WarehouseRow) (d : ℤ) (r : WarehouseRow) (s : Session)
    → get_warehouse_row p w s ≡ some r
    → (f r).product_id ≡ r.product_id
    → (f r).quantity ≡ r.quantity +ℤ d
    → Changes (only p d) nothing s (write_warehouse_row p w f s)
unfolding allocated
write_row-Changes p w f d r s found key adds =
    let ws : List WarehouseRow = s.rows.warehouse_inventory in
    let new : List WarehouseRow = s.new.warehouse_inventory in
    let all : List WarehouseRow = ws ++ new in
    record {
      of_stock = λ q. rw (← update-append (stored_at p w) f r ws new found) (
          grind (
            int_laws,
            sum_by-update (allocated_in q) (stored_at p w) f r all
                (find-append (stored_at p w) r ws new found),
            find_holds (stored_at p w) r ws found,
          ));
      of_total = λ q. sym (+ℤ-zero (total_of q s));
    }

insert_inventory-Changes :
    (row : InventoryRow) (s : Session)
    → Changes nothing (only row.product_id row.quantity) s (insert_inventory row s)
unfolding total sum_by
insert_inventory-Changes row s = record {
  of_stock = λ q. sym (+ℤ-zero (allocated_of q s));
  of_total = λ q. rw (← append_assoc, sum_by-append) (grind int_laws);
}

write_inventory-Changes :
    (p : ℕ) (f : InventoryRow → InventoryRow) (d : ℤ) (r : InventoryRow) (s : Session)
    → get_inventory p s ≡ some r
    → (f r).product_id ≡ r.product_id
    → (f r).quantity ≡ r.quantity +ℤ d
    → Changes nothing (only p d) s (write_inventory p f s)
unfolding total
write_inventory-Changes p f d r s found key adds =
    let rows : List InventoryRow = s.rows.inventory in
    let new : List InventoryRow = s.new.inventory in
    let all : List InventoryRow = rows ++ new in
    record {
      of_stock = λ q. sym (+ℤ-zero (allocated_of q s));
      of_total = λ q. rw (← update-append (of_product p) f r rows new found) (
          grind (
            int_laws,
            sum_by-update (total_in q) (of_product p) f r all
                (find-append (of_product p) r rows new found),
            find_holds (of_product p) r rows found,
          ));
    }

pub adjust_warehouse_quantity-Ensures :
    (p w : ℕ) (d : ℤ) → Ensures (Changes (only p d) nothing) (adjust_warehouse_quantity p w d)
unfolding adjust_warehouse_quantity ◌>>=◌
adjust_warehouse_quantity-Ensures p w d = record { at = λ s a h. go s a h }
  where
    go :
        (s : Session) (a : Unit {0})
        → (adjust_warehouse_quantity p w d s).0 ≡ ok a
        → Changes (only p d) nothing s (adjust_warehouse_quantity p w d s).1
    go s a h = elim (Option-cases (get_warehouse_row p w s)) [
      | inl e ↦ elim (Bool-cases (ltb_ℤ d (pos 0))) [
        | inl t ↦ absurd (ground arith)
        | inr t ↦ rw e (rw t (insert_row-Changes (new_warehouse_row p w d (pos 0)) s))
      ]
      | inr (r, e) ↦ elim (Bool-cases (ltb_ℤ (r.quantity +ℤ d) (pos 0))) [
        | inl t ↦ absurd (ground arith)
        | inr t ↦ rw e (rw t (write_row-Changes p w _ d r s e refl refl))
      ]
    ]

add_quantity-Ensures : (p : ℕ) (d : ℤ) → Ensures (Changes nothing (only p d)) (add_quantity p d)
unfolding add_quantity ◌>>=◌
add_quantity-Ensures p d = record { at = λ s a h. go s a h }
  where
    go :
        (s : Session) (a : Unit {0})
        → (add_quantity p d s).0 ≡ ok a
        → Changes nothing (only p d) s (add_quantity p d s).1
    go s a h = elim (Bool-cases (ltb_ℤ d (pos 0))) [
      | inl t ↦ absurd (ground arith)
      | inr t ↦ elim (Option-cases (get_inventory p s)) [
        | inl e ↦ rw t (rw e (insert_inventory-Changes (record { product_id = p; quantity = d }) s))
        | inr (r, e) ↦ rw t (rw e (write_inventory-Changes p _ d r s e refl refl))
      ]
    ]

minus : (a q : ℤ) → a -ℤ q ≡ a +ℤ negate q
minus a q = omega int_laws

remove_quantity-Ensures :
    (p : ℕ) (q : ℤ) → Ensures (Changes nothing (only p (negate q))) (remove_quantity p q)
unfolding remove_quantity ◌>>=◌
remove_quantity-Ensures p q = record { at = λ s a h. go s a h }
  where
    go :
        (s : Session) (a : Unit {0})
        → (remove_quantity p q s).0 ≡ ok a
        → Changes nothing (only p (negate q)) s (remove_quantity p q s).1
    go s a h = elim (Option-cases (get_inventory p s)) [
      | inl e ↦ absurd (ground arith)
      | inr (r, e) ↦ elim (Bool-cases (ltb_ℤ q (pos 0))) [
        | inl t ↦ absurd (ground arith)
        | inr t ↦ elim (Bool-cases (ltb_ℤ r.quantity q)) [
          | inl u ↦ absurd (ground arith)
          | inr u ↦
              rw e (
                rw t
                  (rw u (write_inventory-Changes p _ (negate q) r s e refl (minus r.quantity q))))
        ]
      ]
    ]

negate-abs : (d : ℤ) → leb_ℤ (pos 0) d ≡ false → negate (abs d) ≡ d
unfolding negate abs
negate-abs d h = ground arith

pub adjust_quantity-Ensures :
    (p : ℕ) (d : ℤ) → Ensures (Changes nothing (only p d)) (adjust_quantity p d)
unfolding adjust_quantity
adjust_quantity-Ensures p d = elim (Bool-cases (leb_ℤ (pos 0) d)) [
  | inl t ↦ rw t (add_quantity-Ensures p d)
  | inr t ↦ rw t (
      subst (λ x. Ensures (Changes nothing (only p x)) (remove_quantity p (abs d))) (negate-abs d t)
        (remove_quantity-Ensures p (abs d)))
]
