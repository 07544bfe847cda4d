-- ===== src/Products/Service.antt =====
-- `ProductService`, application/services/product_service.py, built with a session. A row of an import
-- has the values that `int` and `float` make of its texts, and `none` where they raise `ValueError`.
use wms_core.Base.{ℕ, ◌+◌, max, ℤ, pos, String, Option, none, some, is_some, List, [], ◌∷◌}
use wms_core.Exec.{
  Result, ok, pure, raise, raise_if, lift, ◌>>=◌, ◌>>◌, value_error, validation_error,
  entity_not_found_error, entity_already_exists_error,
}
use wms_core.Products.Product.{Product, new_product, update_name, update_price}
use wms_core.Products.Repo.{Action, commit, save, get, get_all, delete}

-- The arguments of `create_product` and `update_product`.
pub record Fields : Type 0 where
  pub name : Option String
  pub price : Option ℤ
  pub description : Option String

abbrev pub max_id : List Product → ℕ
max_id [] = 0
max_id (p ∷ ps) = max p.product_id (max_id ps)

-- `max(all_products.keys()) + 1`, or 1 where there are none
unfoldable pub resolve_product_id : Option ℕ → Action ℕ
unfolding get_all
resolve_product_id (some product_id) = pure product_id
resolve_product_id none = do products ← get_all; pure (max_id products + 1)

-- `command.price or 0.0`
abbrev price_or_zero : Option ℤ → ℤ
price_or_zero none = pos 0
price_or_zero (some price) = price

abbrev pub filled : ℕ → Fields → String → Product
filled product_id f name = record {
  product_id = product_id;
  name = name;
  description = f.description;
  price = price_or_zero f.price;
}

abbrev pub save_and_commit : Product → Action Product
save_and_commit product = do save product; commit; pure product

-- `create_product` from the name on.
abbrev pub create_named : ℕ → Fields → Option String → Action Product
create_named id f none = raise validation_error
create_named id f (some name) =
    lift (new_product (filled id f name)) >>= λ product. save_and_commit product

unfoldable pub create_product : Option ℕ → Fields → Action Product
unfolding resolve_product_id get new_product save commit
create_product product_id f = do
  id ← resolve_product_id product_id
  existing ← get id
  raise_if (is_some existing) entity_already_exists_error
  create_named id f f.name

abbrev pub present : Option Product → Action Product
present none = raise entity_not_found_error
present (some p) = pure p

unfoldable pub get_product_details : ℕ → Action Product
unfolding get
get_product_details product_id = do product ← get product_id; present product

abbrev pub then_name : Option String → Product → Result Product
then_name none p = ok p
then_name (some name) p = update_name name p

abbrev pub then_price : Option ℤ → Product → Result Product
then_price none p = ok p
then_price (some price) p = update_price price p

abbrev pub then_description : Option String → Product → Product
then_description none p = p
then_description (some text) p = record p { description = some text }

unfoldable pub update_product : ℕ → Fields → Action Product
unfolding get_product_details update_name update_price save commit
update_product product_id f = do
  found ← get_product_details product_id
  renamed ← lift (then_name f.name found)
  priced ← lift (then_price f.price renamed)
  save_and_commit (then_description f.description priced)

unfoldable pub delete_product : ℕ → Action (Unit {0})
unfolding get_product_details delete commit
delete_product product_id = do get_product_details product_id; delete product_id; commit

-- A row with the three required columns.
pub record ImportRow : Type 0 where
  pub product_id : Option ℕ
  pub name : String
  pub price : Option ℤ
  pub description : Option String

-- `created` and `updated`
pub record Counts : Type 0 where
  pub created : ℕ
  pub updated : ℕ

abbrev pub parsed : {A : Type 0} → Option A → Action A
parsed none = raise value_error
parsed (some a) = pure a

abbrev pub fields_of : ImportRow → ℤ → Fields
fields_of row price = record {
  name = some row.name;
  price = some price;
  description = row.description;
}

abbrev pub put_row : ℕ → Fields → Option Product → Counts → Action Counts
put_row product_id f (some _) c =
    update_product product_id f >> pure (record c { updated = c.updated + 1 })
put_row product_id f none c =
    create_product (some product_id) f >> pure (record c { created = c.created + 1 })

unfoldable pub import_row : ImportRow → Counts → Action Counts
unfolding get update_product create_product
import_row row c = do
  product_id ← parsed row.product_id
  price ← parsed row.price
  existing ← get product_id
  put_row product_id (fields_of row price) existing c

unfoldable pub import_rows : List ImportRow → Counts → Action Counts
unfolding import_row
import_rows [] c = pure c
import_rows (row ∷ rows) c = do counts ← import_row row c; import_rows rows counts

-- A row as it comes: `none` outside is a missing column, and inside a text that is no number.
pub record CsvRow : Type 0 where
  pub product_id : Option (Option ℕ)
  pub name : Option String
  pub price : Option (Option ℤ)
  pub description : Option String

-- `required.issubset(row.keys())`: the row with its required columns.
unfoldable pub complete : CsvRow → Option ImportRow
complete row = columns row.product_id row.name row.price
  where
    columns : Option (Option ℕ) → Option String → Option (Option ℤ) → Option ImportRow
    columns (some id) (some name) (some price) =
        some (record { product_id = id; name = name; price = price; description = row.description })
    columns _ _ _ = none

abbrev pub add_complete : Option ImportRow → Option (List ImportRow) → Option (List ImportRow)
add_complete (some row) (some rows) = some (row ∷ rows)
add_complete _ _ = none

unfoldable pub complete_all : List CsvRow → Option (List ImportRow)
unfolding complete
complete_all [] = some []
complete_all (row ∷ rows) = add_complete (complete row) (complete_all rows)

abbrev pub import_complete : Option (List ImportRow) → Action Counts
import_complete none = raise validation_error
import_complete (some rows) = import_rows rows (record { created = 0; updated = 0 })

-- The first loop looks at every row before the second one imports any.
unfoldable pub import_products : List CsvRow → Action Counts
unfolding import_rows complete_all
import_products rows = import_complete (complete_all rows)
