-- ===== src/Reporting/Stock/Matrix.antt =====
-- A change of the matrix, in the session and in the database.
use wms_core.Base.{
  ℕ, ◌+ℤ◌, ◌==◌, ◌≡◌, refl, ap, ◌∙◌, true, Bool-cases, inl, inr, some, is_some, List, [], ◌∷◌, map,
  find, update, sum_by, arith, int_laws,
}
use mathlib.Core.Option
use wms_core.Base.Tables.{sum_by-update, find-update_self, find-map}
use wms_core.Reporting.Rows.{Cell, InventorySummary}
use wms_core.Reporting.Session.{Tracked, track, matrix_eqb, flush_row}
use wms_core.Reporting.Stock.{
  Deltas, change_cell, at_warehouse, with_key, sync, changed_row, change_tracked, of_product,
}

pub matrix_eqb_self : (xs : List Cell) → matrix_eqb xs xs ≡ true
unfolding matrix_eqb
matrix_eqb_self [] = refl
matrix_eqb_self (x ∷ xs) = ground (arith, matrix_eqb_self xs)

-- The row of the session after a change of a cell that the mapping has.
abbrev pub changed : ℕ → Deltas → InventorySummary → InventorySummary
changed w d row = sync (update (at_warehouse w) (change_cell d) row.warehouse_matrix) row

pub changed_row-known :
    (w : ℕ) (d : Deltas) (row : InventorySummary)
    → is_some (find (at_warehouse w) row.warehouse_matrix) ≡ true
    → changed_row w d row ≡ changed w d row
unfolding changed_row with_key
changed_row-known w d row known = rw known refl

flush_row-same :
    (t : Tracked)
    → matrix_eqb t.before t.row.warehouse_matrix ≡ true
    → flush_row t ≡ record t.row { warehouse_matrix = t.stored }
unfolding flush_row
flush_row-same t e = rw e refl

-- The row with the mapping of the database.
abbrev pub with_matrix : List Cell → InventorySummary → InventorySummary
with_matrix matrix row = record row { warehouse_matrix = matrix }

-- The mapping that the session kept has changed with the row, so the flush leaves it out.
pub flush_row-known :
    (w : ℕ) (d : Deltas) (row : InventorySummary)
    → is_some (find (at_warehouse w) row.warehouse_matrix) ≡ true
    → flush_row (change_tracked w d (track row))
      ≡ with_matrix row.warehouse_matrix (changed w d row)
unfolding change_tracked
flush_row-known w d row known =
    let e = changed_row-known w d row known in
    let cells : List Cell = update (at_warehouse w) (change_cell d) row.warehouse_matrix in
    flush_row-same (change_tracked w d (track row))
      (ap (λ x. matrix_eqb cells x.warehouse_matrix) e ∙ matrix_eqb_self cells)
    ∙ ap (with_matrix row.warehouse_matrix) e

flush_row-product : (t : Tracked) → (flush_row t).product_id ≡ t.row.product_id
unfolding flush_row
flush_row-product t = elim (Bool-cases (matrix_eqb t.before t.row.warehouse_matrix)) [
  | inl e ↦ rw e refl
  | inr e ↦ rw e refl
]

-- The total of a changed row.
pub total-changed :
    (w : ℕ) (d : Deltas) (row : InventorySummary) (c : Cell)
    → find (at_warehouse w) row.warehouse_matrix ≡ some c
    → (changed w d row).total_quantity
      ≡ sum_by (λ m. m.physical_qty) row.warehouse_matrix +ℤ d.physical
total-changed w d row c found = grind (
  int_laws,
  sum_by-update (λ m. m.physical_qty) (at_warehouse w) (change_cell d) c row.warehouse_matrix found,
)

-- The row that a flush leaves of the one that was changed.
pub find-flush_row :
    (p w : ℕ) (d : Deltas) (row : InventorySummary) (rows : List InventorySummary)
    → find (λ r. r.product_id == p) rows ≡ some row
    → find
        (λ r. r.product_id == p)
        (map flush_row (update (of_product p) (change_tracked w d) (map track rows)))
      ≡ some (flush_row (change_tracked w d (track row)))
find-flush_row p w d row rows h =
    find-map flush_row (λ r. r.product_id == p) (of_product p)
      (update (of_product p) (change_tracked w d) (map track rows))
      (λ t. ap (λ x. x == p) (flush_row-product t))
    ∙ ap (Option.map flush_row) (
        find-update_self (of_product p) (change_tracked w d) (map track rows) (λ t. same_product t)
        ∙ ap (Option.map (change_tracked w d)) (
            find-map track (of_product p) (λ r. r.product_id == p) rows (λ r. refl)
            ∙ ap (Option.map track) h))
  where
    same_product : (t : Tracked) → of_product p (change_tracked w d t) ≡ of_product p t
    same_product t = unfold change_tracked changed_row in refl
