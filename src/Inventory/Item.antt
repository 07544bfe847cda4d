-- ===== src/Inventory/Item.antt =====
-- `InventoryItem` of domain/entities/inventory.py and the value objects of domain/value_objects.py.
-- The tests by `isinstance` always pass on the values of the model.
use wms_core.Base.{ℕ, ℤ, pos, ◌+ℤ◌, ◌-ℤ◌, ltb_ℤ, leb_ℤ, eqb_ℤ, leb, Bool, if◌then◌else◌}
use wms_core.Exec.{
  Result, ok, err, Exec, raise_if, modify, ◌>>◌, invalid_id_error, invalid_quantity_error,
  validation_error, insufficient_stock_error,
}

pub record InventoryItem : Type 0 where
  pub product_id : ℕ
  pub quantity : ℤ

abbrev pub validate_product_id : ℕ → Result (Unit {0})
validate_product_id product_id = if leb product_id 0 then err invalid_id_error else ok tt

abbrev pub validate_quantity : ℤ → Result (Unit {0})
validate_quantity quantity = if ltb_ℤ quantity (pos 0) then err invalid_quantity_error else ok tt

-- `Sku(product_id)`
abbrev pub sku : ℕ → Result (Unit {0})
sku = validate_product_id

-- `Quantity(value)`
abbrev pub quantity_of : ℤ → Result (Unit {0})
quantity_of = validate_quantity

-- `WarehouseLocation(warehouse_id)`
abbrev pub warehouse_location : ℕ → Result (Unit {0})
warehouse_location warehouse_id = if leb warehouse_id 0 then err validation_error else ok tt

-- `InventoryItem(product_id, quantity)`
unfoldable pub new_item : ℕ → ℤ → Result InventoryItem
new_item product_id quantity =
    if leb product_id 0
    then err invalid_id_error
    else if ltb_ℤ quantity (pos 0)
    then err invalid_quantity_error
    else ok (record { product_id = product_id; quantity = quantity })

unfoldable pub add_quantity : ℤ → Exec InventoryItem (Unit {0})
add_quantity amount item =
    (do
      raise_if (ltb_ℤ amount (pos 0)) invalid_quantity_error
      raise_if (ltb_ℤ (item.quantity +ℤ amount) (pos 0)) invalid_quantity_error
      modify (λ i. record i { quantity = item.quantity +ℤ amount }))
      item

unfoldable pub remove_quantity : ℤ → Exec InventoryItem (Unit {0})
remove_quantity amount item =
    (do
      raise_if (ltb_ℤ amount (pos 0)) invalid_quantity_error
      raise_if (ltb_ℤ item.quantity amount) insufficient_stock_error
      modify (λ i. record i { quantity = i.quantity -ℤ amount }))
      item

unfoldable pub has_sufficient_stock : InventoryItem → ℤ → Bool
has_sufficient_stock item requested = leb_ℤ requested item.quantity

unfoldable pub is_empty : InventoryItem → Bool
is_empty item = eqb_ℤ item.quantity (pos 0)
