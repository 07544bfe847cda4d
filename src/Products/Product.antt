-- ===== src/Products/Product.antt =====
-- `Product`, domain/entities/product.py. A price is a whole number of the smallest unit; the tests by
-- `isinstance` always pass on the values of the model.

use wms_core.Base.{ℕ, suc, leb, ltb, ℤ, pos, ltb_ℤ, String, is_blank, Option, if◌then◌else◌}
use wms_core.Exec.{Result, ok, err, invalid_id_error, invalid_quantity_error, validation_error}

pub record Product : Type 0 where
  pub product_id : ℕ
  pub name : String
  pub description : Option String
  pub price : ℤ

-- `len(text)`
unfoldable pub text_length : String → ℕ
text_length String.[] = 0
text_length (String.◌∷◌ c text) = suc (text_length text)

unfoldable pub validate_name : String → Result (Unit {0})
unfolding is_blank text_length
validate_name name =
    if is_blank name
    then err validation_error
    else if ltb 100 (text_length name)
    then err validation_error
    else ok tt

unfoldable pub validate_price : ℤ → Result (Unit {0})
validate_price price = if ltb_ℤ price (pos 0) then err invalid_quantity_error else ok tt

unfoldable pub validate_product_id : ℕ → Result (Unit {0})
validate_product_id product_id = if leb product_id 0 then err invalid_id_error else ok tt

abbrev pub after_check {ℓ} : {A : Type ℓ} → Result (Unit {0}) → Result A → Result A
after_check (ok _) r = r
after_check (err e) r = err e

-- `Product(product_id, name, description, price)`
unfoldable pub new_product : Product → Result Product
unfolding validate_product_id validate_name validate_price
new_product p =
    after_check (validate_product_id p.product_id)
      (after_check (validate_name p.name) (after_check (validate_price p.price) (ok p)))

unfoldable pub update_name : String → Product → Result Product
unfolding validate_name
update_name name p = after_check (validate_name name) (ok (record p { name = name }))

unfoldable pub update_price : ℤ → Product → Result Product
unfolding validate_price
update_price price p = after_check (validate_price price) (ok (record p { price = price }))
