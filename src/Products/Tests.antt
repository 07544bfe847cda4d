-- ===== src/Products/Tests.antt =====
-- The catalog on concrete data.
use wms_core.Base.{
  ℕ, ◌+◌, pos, ◌≡◌, refl, true, none, some, is_some, List, [], ◌∷◌, find, update, select, all,
  is_blank, length,
}
use wms_core.Exec.{ok, ◌>>=◌}
use wms_core.Inventory.Session.{unique}
use wms_core.Products.Product.{
  Product, new_product, update_name, update_price, validate_name, validate_price,
  validate_product_id, text_length,
}
use wms_core.Products.Repo.{Session, constraints, commit, save, get, get_all, to_domain_all, delete}
use wms_core.Products.Service.{
  Fields, create_product, resolve_product_id, get_product_details, update_product, delete_product,
  ImportRow, Counts, import_row, import_rows, import_products, CsvRow, complete_all,
}
use wms_core.Products.Catalog.{IsClean, catalog, put, without}
use wms_core.Products.Writes.{Turns}
use wms_core.Products.Methods.{created, deleted}
use wms_core.Products.Imports.{imported_all, import_products_lem}

abbrev bolt : Product
bolt = record { product_id = 7; name = "bolt"; description = none; price = pos 120 }

abbrev stocked : Session
stocked = record { rows = bolt ∷ []; new = []; committed = bolt ∷ [] }

stocked-IsClean : IsClean stocked
unfolding new_product validate_name validate_price validate_product_id is_blank text_length
stocked-IsClean = record { nothing_new = refl; all_committed = refl; valid = (refl, tt) }

-- A new price for the bolt, and a nut.
abbrev csv : List CsvRow
csv =
    record {
      product_id = some (some 7);
      name = some "bolt";
      price = some (some (pos 130));
      description = none;
    }
    ∷ record {
      product_id = some (some 8);
      name = some "nut";
      price = some (some (pos 40));
      description = some "M8";
    }
    ∷ []

abbrev one_each : Counts
one_each = record { created = 1; updated = 1 }

abbrev imported : Session
imported = (import_products csv stocked).1

rows_are_imported : import_products csv stocked ≡ (ok one_each, imported)
unfolding import_products import_rows import_row update_product create_product resolve_product_id
    get_product_details update_name update_price new_product validate_name validate_price
    validate_product_id text_length is_blank get save commit constraints unique all find update
    ◌>>=◌
rows_are_imported = refl

import_products_example :
    (full : List ImportRow) × (complete_all csv ≡ some full)
    × ((k : ℕ) → catalog imported k ≡ imported_all full (catalog stocked) k)
    × (imported.committed ≡ imported.rows)
    × (one_each.created + one_each.updated ≡ length csv)
import_products_example =
    import_products_lem csv one_each stocked imported rows_are_imported stocked-IsClean

abbrev fields : Fields
fields = record { name = some "nut"; price = some (pos 40); description = none }

abbrev nut : Product
nut = record { product_id = 8; name = "nut"; description = none; price = pos 40 }

abbrev with_nut : Session
with_nut = (create_product none fields stocked).1

nut_is_created : create_product none fields stocked ≡ (ok nut, with_nut)
unfolding create_product resolve_product_id get_all to_domain_all new_product validate_name
    validate_price validate_product_id text_length is_blank get save commit constraints unique all
    find update ◌>>=◌
nut_is_created = refl

created_example : (catalog stocked 8 ≡ none) × Turns (put nut (catalog stocked)) with_nut
created_example = created none fields stocked with_nut nut nut_is_created stocked-IsClean

abbrev emptied : Session
emptied = (delete_product 7 stocked).1

bolt_is_deleted : delete_product 7 stocked ≡ (ok tt, emptied)
unfolding delete_product get_product_details get delete new_product validate_name validate_price
    validate_product_id text_length is_blank commit constraints unique all find select ◌>>=◌
bolt_is_deleted = refl

deleted_example : (is_some (catalog stocked 7) ≡ true) × Turns (without 7 (catalog stocked)) emptied
deleted_example = deleted 7 stocked emptied bolt_is_deleted stocked-IsClean
