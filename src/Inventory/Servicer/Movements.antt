-- ===== src/Inventory/Servicer/Movements.antt =====
-- What the consumer of `InventoryMovementRequested` does to the stock.
use wms_core.Base.{
  ℕ, ℤ, pos, negate, ◌+ℤ◌, ◌-ℤ◌, int_laws, ◌≡◌, refl, ap, ◌∙◌, Bool, true, false, List, [], ◌∷◌,
  ◌++◌, append-nil, +ℤ-zero,
}
use wms_core.Exec.{ok}
use wms_core.Inventory.Rows.{MovementDocType, Movement, MovementItem}
use wms_core.Inventory.Session.{Session}
use wms_core.Inventory.Totals.{total, allocated, Changes}
use wms_core.Inventory.Service.Move.{apply_document_movement}
use wms_core.Inventory.Service.Move.Books.{stock_delta, total_delta, summed, line}
use wms_core.Inventory.Service.Move.Conservation.{
  stock_change, total_change, IsCommitted, apply_document_movement-Ensures,
}
use wms_core.Inventory.Servicer.{Store, open_session}

-- The committed tables after a movement, against the tables before.
record Moves (stock sum : ℕ → ℤ) (st : Store) (s : Session) : Type 0 where
  of_stock :
      (p : ℕ)
      → allocated p s.committed.warehouse_inventory
        ≡ allocated p st.db.warehouse_inventory +ℤ stock p
  of_total : (p : ℕ) → total p s.committed.inventory ≡ total p st.db.inventory +ℤ sum p

committed-Moves :
    {f g : ℕ → ℤ} (st : Store) (s : Session)
    → Changes f g (open_session st) s × IsCommitted s
    → Moves f g st s
committed-Moves {f} {g} st s (c, (is_rows, is_flushed)) = record {
  of_stock = λ p.
      ap (λ d. allocated p d.warehouse_inventory) is_rows
      ∙ ap (allocated p) (sym_append _ (ap (λ d. d.warehouse_inventory) is_flushed))
      ∙ c.of_stock p
      ∙ ap (λ xs. allocated p xs +ℤ f p) (append-nil st.db.warehouse_inventory);
  of_total = λ p.
      ap (λ d. total p d.inventory) is_rows
      ∙ ap (total p) (sym_append _ (ap (λ d. d.inventory) is_flushed))
      ∙ c.of_total p
      ∙ ap (λ xs. total p xs +ℤ g p) (append-nil st.db.inventory);
}
  where
    sym_append : {A : Type 0} (xs : List A) {ys : List A} → ys ≡ [] → xs ≡ xs ++ ys
    sym_append xs e = rw (e, append-nil xs) refl

module _ (next_id : List ℕ → ℕ) where
  -- A movement that the consumer applies and commits, of any type of document, changes the stock of a
  -- product over all warehouses by the sum of `stock_delta` over its lines of the product, and the
  -- product's total by the sum of `total_delta`, with nothing else lost or added.
  pub movement_changes_stock :
      (m : Movement) (st : Store) (s : Session)
      → apply_document_movement next_id m (open_session st) ≡ (ok true, s)
      → (p : ℕ)
      → (allocated p s.committed.warehouse_inventory
          ≡ allocated p st.db.warehouse_inventory +ℤ stock_change m p)
        × (total p s.committed.inventory ≡ total p st.db.inventory +ℤ total_change m p)
  movement_changes_stock m st s h p =
      let moves =
        committed-Moves st s (apply_document_movement-Ensures next_id m (open_session st) s h) in
      (moves.of_stock p, moves.of_total p)

abbrev pub moves_between_warehouses : MovementDocType → Bool
moves_between_warehouses MovementDocType.transfer = true
moves_between_warehouses _ = false

same_deltas :
    (t : MovementDocType) (items : List MovementItem) (p : ℕ)
    → moves_between_warehouses t ≡ false
    → summed (line (stock_delta t)) items p ≡ summed (line (total_delta t)) items p
same_deltas MovementDocType.import items p h = refl
same_deltas MovementDocType.export items p h = refl
same_deltas MovementDocType.sale items p h = refl
same_deltas MovementDocType.transfer items p h = absurd cc
same_deltas (MovementDocType.other name) items p h = refl

no_stock :
    (items : List MovementItem) (p : ℕ)
    → summed (line (stock_delta MovementDocType.transfer)) items p ≡ pos 0
unfolding summed
no_stock [] p = refl
no_stock (i ∷ items) p = rw (no_stock items p) (grind int_laws)

module _ (next_id : List ℕ → ℕ) where
  -- An applied import, export or sale (or any movement that is not a transfer) keeps the quantity of
  -- each product that is in the total and in no warehouse: total minus allocated is what it was.
  pub movement_keeps_unallocated :
      (m : Movement) (st : Store) (s : Session)
      → moves_between_warehouses m.doc_type ≡ false
      → apply_document_movement next_id m (open_session st) ≡ (ok true, s)
      → (p : ℕ)
      → total p s.committed.inventory -ℤ allocated p s.committed.warehouse_inventory
        ≡ total p st.db.inventory -ℤ allocated p st.db.warehouse_inventory
  movement_keeps_unallocated m st s kind h p =
      let (stock, sum) = movement_changes_stock next_id m st s h p in
      grind (int_laws, stock, sum, same_deltas m.doc_type m.items p kind)

  -- An applied transfer leaves the stock of each product over all warehouses as it was and still takes
  -- the transferred quantity of each line off the product's total.
  pub transfer_lowers_total :
      (m : Movement) (st : Store) (s : Session)
      → m.doc_type ≡ MovementDocType.transfer
      → apply_document_movement next_id m (open_session st) ≡ (ok true, s)
      → (p : ℕ)
      → (allocated p s.committed.warehouse_inventory ≡ allocated p st.db.warehouse_inventory)
        × (total p s.committed.inventory
            ≡ total p st.db.inventory +ℤ summed (line negate) m.items p)
  transfer_lowers_total m st s kind h p =
      let (stock, sum) = movement_changes_stock next_id m st s h p in
      (
        stock ∙ zero_change,
        sum ∙ ap (λ t. total p st.db.inventory +ℤ summed (line (total_delta t)) m.items p) kind,
      )
    where
      zero_change :
          allocated p st.db.warehouse_inventory +ℤ stock_change m p
          ≡ allocated p st.db.warehouse_inventory
      zero_change =
          ap (λ t. allocated p st.db.warehouse_inventory +ℤ summed (line (stock_delta t)) m.items p)
            kind
          ∙ rw (no_stock m.items p) (+ℤ-zero _)
