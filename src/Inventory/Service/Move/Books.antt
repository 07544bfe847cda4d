-- ===== src/Inventory/Service/Move/Books.antt =====
-- What a document movement does to the total and to the allocated quantity of each product.
use wms_core.Base.{ℕ, ℤ, pos, ◌+ℤ◌, negate, int_laws, Option, none, some, List, [], ◌∷◌}
use wms_core.Exec.{Exec, raise, ◌>>=◌, ◌>>◌}
use wms_core.Exec.Ensures.{Ensures, Ensures-bind, Ensures-lift}
use wms_core.Inventory.Rows.{MovementDocType, MovementItem, Movement}
use wms_core.Inventory.Session.{Session}
use wms_core.Inventory.Stock.{adjust_quantity, adjust_warehouse_quantity}
use wms_core.Inventory.Totals.{only, Changes}
use wms_core.Inventory.Totals.Steps.{adjust_warehouse_quantity-Ensures, adjust_quantity-Ensures}
use wms_core.Inventory.Service.Move.{apply_inbound, apply_outbound, int_of, move_item}

-- How one line of a movement changes the stock of the warehouses, and the total.
abbrev pub stock_delta : MovementDocType → ℤ → ℤ
stock_delta MovementDocType.import quantity = quantity
stock_delta MovementDocType.export quantity = negate quantity
stock_delta MovementDocType.sale quantity = negate quantity
stock_delta _ quantity = pos 0

abbrev pub total_delta : MovementDocType → ℤ → ℤ
total_delta MovementDocType.import quantity = quantity
total_delta MovementDocType.export quantity = negate quantity
total_delta MovementDocType.sale quantity = negate quantity
total_delta MovementDocType.transfer quantity = negate quantity
total_delta _ quantity = pos 0

-- The sum over lines of what each changes, for one product.
unfoldable pub summed : {X : Type 0} → (X → ℕ → ℤ) → List X → ℕ → ℤ
summed f [] p = pos 0
summed f (x ∷ xs) p = f x p +ℤ summed f xs p

-- What a line does under a change of the sign.
abbrev pub line : (ℤ → ℤ) → MovementItem → ℕ → ℤ
line change item = only item.product_id (change item.quantity)

-- Two adjustments of one product, one after the other.
both :
    (p w : ℕ) (d e : ℤ)
    → Ensures
        (Changes (only p d) (only p e))
        (adjust_warehouse_quantity p w d >> adjust_quantity p e)
both p w d e =
    Ensures-bind _ _
      (λ s t u a b. record {
        of_stock = λ q. grind (int_laws, a.of_stock q, b.of_stock q);
        of_total = λ q. grind (int_laws, a.of_total q, b.of_total q);
      })
      (adjust_warehouse_quantity-Ensures p w d) (λ _. adjust_quantity-Ensures p e)

apply_inbound-Ensures :
    (p w : ℕ) (q : ℤ) → Ensures (Changes (only p q) (only p q)) (apply_inbound p w q none)
unfolding apply_inbound
apply_inbound-Ensures p w q = Ensures-lift _ _ (λ _. Ensures-lift _ _ (λ _. both p w q q))

apply_inbound-Ensures_zero :
    (p w : ℕ) (q : ℤ)
    → Ensures (Changes (only p q) (only p (pos 0))) (apply_inbound p w q (some (pos 0)))
unfolding apply_inbound
apply_inbound-Ensures_zero p w q =
    Ensures-lift _ _ (λ _. Ensures-lift _ _ (λ _. both p w q (pos 0)))

apply_outbound-Ensures :
    (p w : ℕ) (q : ℤ)
    → Ensures (Changes (only p (negate q)) (only p (negate q))) (apply_outbound p w q)
unfolding apply_outbound
apply_outbound-Ensures p w q =
    Ensures-lift _ _ (λ _. Ensures-lift _ _ (λ _. both p w (negate q) (negate q)))

-- A warehouse id that is there.
with_id :
    {R : Session → Session → Type 0} {A : Type 0} (id : Option ℕ) (f : ℕ → Exec Session A)
    → ((w : ℕ) → Ensures R (f w))
    → Ensures R (int_of id >>= f)
unfolding ◌>>=◌
with_id none f rest = record { at = λ s b h. cc }
with_id (some w) f rest = rest w

pub move_item-Ensures :
    (m : Movement) (t : MovementDocType) (i : MovementItem)
    → Ensures
        (Changes
          (only i.product_id (stock_delta t i.quantity))
          (only i.product_id (total_delta t i.quantity)))
        (move_item m t i)
unfolding move_item raise
move_item-Ensures m MovementDocType.import i =
    with_id m.to_warehouse_id _ (λ w. apply_inbound-Ensures i.product_id w i.quantity)
move_item-Ensures m MovementDocType.export i =
    with_id m.from_warehouse_id _ (λ w. apply_outbound-Ensures i.product_id w i.quantity)
move_item-Ensures m MovementDocType.sale i =
    with_id m.from_warehouse_id _ (λ w. apply_outbound-Ensures i.product_id w i.quantity)
move_item-Ensures m MovementDocType.transfer i = with_id m.from_warehouse_id _ (λ w.
    Ensures-bind _ _
      (λ s t u a b. record {
        of_stock = λ q. grind (int_laws, a.of_stock q, b.of_stock q);
        of_total = λ q. grind (int_laws, a.of_total q, b.of_total q);
      })
      (apply_outbound-Ensures i.product_id w i.quantity)
      (λ _.
        with_id m.to_warehouse_id _ (λ to. apply_inbound-Ensures_zero i.product_id to i.quantity)))
move_item-Ensures m (MovementDocType.other name) i = record { at = λ s a h. cc }
