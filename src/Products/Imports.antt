-- ===== src/Products/Imports.antt =====
-- The update of a product, and an import as a sequence of writes to the catalog.
use wms_core.Base.{
  ℕ, suc, ◌+◌, ℤ, ◌≡◌, refl, sym, ap, ◌∙◌, Option, none, some, List, [], ◌∷◌, length, Option-cases,
  inl, inr, arith, String,
}
use wms_core.Base.Tables.{All-find}
use mathlib.Core.Path.{subst}
use std.Path.{fun_ext}
use wms_core.Exec.{ok, pure, raise, lift, ◌>>=◌}
use wms_core.Exec.Ensures.{both_steps}
use wms_core.Products.Product.{Product, new_product, update_name, update_price}
use wms_core.Products.Repo.{Session, with_id}
use wms_core.Products.Service.{
  Fields, filled, get_product_details, then_name, then_price, then_description, update_product,
  create_product, save_and_commit, ImportRow, Counts, fields_of, put_row, import_row, import_rows,
  import_products, CsvRow, complete, complete_all, add_complete, import_complete,
}
use wms_core.Products.Catalog.{IsValid, IsClean, Catalog, catalog, put}
use wms_core.Products.Writes.{Turns, get_valid, lift_lands, saved_and_returned}
use wms_core.Products.Methods.{created_as}

-- A product with the fields that an update names.
abbrev pub merged : Fields → Product → Product
merged f p = record p {
  name = elim f.name [ none ↦ p.name | some name ↦ name ];
  price = elim f.price [ none ↦ p.price | some price ↦ price ];
  description = elim f.description [ none ↦ p.description | some text ↦ some text ];
}

named-IsValid :
    (name : Option String) (p q : Product)
    → then_name name p ≡ ok q
    → IsValid p
    → (record p { name = elim name [ none ↦ p.name | some text ↦ text ] } ≡ q) × IsValid q
unfolding update_name new_product
named-IsValid none p q h valid = ground (arith, h, valid)
named-IsValid (some text) p q h valid = ground (arith, h, valid)

priced-IsValid :
    (price : Option ℤ) (p q : Product)
    → then_price price p ≡ ok q
    → IsValid p
    → (record p { price = elim price [ none ↦ p.price | some v ↦ v ] } ≡ q) × IsValid q
unfolding update_price new_product
priced-IsValid none p q h valid = ground (arith, h, valid)
priced-IsValid (some v) p q h valid = ground (arith, h, valid)

described-IsValid :
    (text : Option String) (p : Product)
    → IsValid p
    → (record p { description = elim text [ none ↦ p.description | some t ↦ some t ] }
        ≡ then_description text p)
      × IsValid (then_description text p)
unfolding new_product
described-IsValid none p valid = (refl, valid)
described-IsValid (some t) p valid = ground (arith, valid)

-- `update_product` from the product on.
changed :
    (f : Fields) (old : Product) (s t : Session) (p : Product)
    → (lift (then_name f.name old) >>= λ renamed. lift (then_price f.price renamed) >>= λ priced.
          save_and_commit (then_description f.description priced))
        s
      ≡ (ok p, t)
    → IsClean s
    → IsValid old
    → Turns (put (merged f old) (catalog s)) t
changed f old s t p h clean valid =
    let (renamed, u, e1, h1) = both_steps (lift (then_name f.name old)) _ s t p h in
    let (n, same1) = lift_lands (then_name f.name old) s u renamed e1 in
    let (name_is, valid1) = named-IsValid f.name old renamed n valid in
    let (priced, v, e2, h2) = both_steps (lift (then_price f.price renamed)) _ u t p h1 in
    let (m, same2) = lift_lands (then_price f.price renamed) u v priced e2 in
    let (price_is, valid2) = priced-IsValid f.price renamed priced m valid1 in
    let (text_is, valid3) = described-IsValid f.description priced valid2 in
    let last : Product = then_description f.description priced in
    let (_, turned) =
      saved_and_returned last p s t
        (subst (λ x. save_and_commit last x ≡ (ok p, t)) (sym (same1 ∙ same2)) h2) clean valid3 in
    subst (λ x. Turns (put x (catalog s)) t) (sym (whole renamed priced name_is price_is ∙ text_is))
      turned
  where
    whole :
        (renamed priced : Product)
        → record old { name = elim f.name [ none ↦ old.name | some text ↦ text ] } ≡ renamed
        → record renamed { price = elim f.price [ none ↦ renamed.price | some v ↦ v ] } ≡ priced
        → merged f old ≡ record priced {
          description = elim f.description [ none ↦ priced.description | some t ↦ some t ];
        }
    whole renamed priced a b = cc

-- `update_product` of a product that is there writes it with the fields that are given, and nothing
-- else.
pub updated :
    (product_id : ℕ) (f : Fields) (s t : Session) (p : Product)
    → update_product product_id f s ≡ (ok p, t)
    → IsClean s
    → (old : Product) × (catalog s product_id ≡ some old) × Turns (put (merged f old) (catalog s)) t
unfolding update_product get_product_details ◌>>=◌
updated product_id f s t p h clean = elim (Option-cases (catalog s product_id)) [
  | inl e ↦
      absurd (ground (arith, ap (λ x. x.0) (rw e at (rw (get_valid product_id s clean) at h))))
  | inr (old, e) ↦ (
    old,
    e,
    changed f old s t p (rw e at (rw (get_valid product_id s clean) at h)) clean
        (All-find IsValid (with_id product_id) old s.rows e clean.valid),
  )
]

-- What a row of an import means for the catalog: a new product, or new fields of the one that is
-- there.
abbrev upserted : ℕ → Fields → String → Option Product → Product
upserted product_id f name none = filled product_id f name
upserted product_id f name (some old) = merged f old

abbrev pub imported : ImportRow → Catalog → Catalog
imported row c = elim row.product_id [
  | none ↦ c
  | some product_id ↦ elim row.price [
    | none ↦ c
    | some price ↦ put (upserted product_id (fields_of row price) row.name (c product_id)) c
  ]
]

abbrev pub imported_all : List ImportRow → Catalog → Catalog
imported_all [] c = c
imported_all (row ∷ rows) c = imported_all rows (imported row c)

abbrev pub total : Counts → ℕ
total n = n.created + n.updated

-- One row, once it is parsed and its product is looked up.
put_row_turns :
    (product_id : ℕ) (row : ImportRow) (price : ℤ) (existing : Option Product) (n n' : Counts)
    (s t : Session)
    → put_row product_id (fields_of row price) existing n s ≡ (ok n', t)
    → IsClean s
    → catalog s product_id ≡ existing
    → Turns (put (upserted product_id (fields_of row price) row.name existing) (catalog s)) t
      × (total n' ≡ suc (total n))
unfolding pure
put_row_turns product_id row price none n n' s t h clean e =
    let (p, u, k, r) =
      both_steps (create_product (some product_id) (fields_of row price)) _ s t n' h in
    (
      subst (Turns _) (ap (λ x. x.1) r)
          (created_as product_id (fields_of row price) row.name s u p refl k clean),
      ground (arith, ap (λ x. x.0) r),
    )
put_row_turns product_id row price (some old) n n' s t h clean e =
    let (p, u, k, r) = both_steps (update_product product_id (fields_of row price)) _ s t n' h in
    let (found, e2, turned) = updated product_id (fields_of row price) s u p k clean in
    (
      subst (λ x. Turns (put (merged (fields_of row price) x) (catalog s)) t)
          (some_injective (sym e2 ∙ e)) (subst (Turns _) (ap (λ x. x.1) r) turned),
      ground (arith, ap (λ x. x.0) r),
    )
  where
    some_injective : {a b : Product} → some a ≡ some b → a ≡ b
    some_injective h = cc

import_row_turns :
    (row : ImportRow) (n n' : Counts) (s t : Session)
    → import_row row n s ≡ (ok n', t)
    → IsClean s
    → Turns (imported row (catalog s)) t × (total n' ≡ suc (total n))
unfolding import_row raise pure ◌>>=◌
import_row_turns row n n' s t h clean = elim (Option-cases row.product_id) [
  | inl e ↦ absurd (ground (arith, ap (λ x. x.0) (rw e at h)))
  | inr (id, e) ↦ elim (Option-cases row.price) [
    | inl v ↦ absurd (ground (arith, ap (λ x. x.0) (rw v at (rw e at h))))
    | inr (price, v) ↦
        rw (e, v)
          (put_row_turns id row price (catalog s id) n n' s t
            (rw (get_valid id s clean) at (rw v at (rw e at h))) clean refl)
  ]
]

import_rows_turn :
    (rows : List ImportRow) (n n' : Counts) (s t : Session)
    → import_rows rows n s ≡ (ok n', t)
    → IsClean s
    → Turns (imported_all rows (catalog s)) t × (total n' ≡ length rows + total n)
unfolding import_rows pure
import_rows_turn [] n n' s t h clean = (
  subst (Turns (catalog s)) (ap (λ x. x.1) h) (record { lookup = λ k. refl; clean = clean }),
  ground (arith, ap (λ x. x.0) h),
)
import_rows_turn (row ∷ rows) n n' s t h clean =
    let (m, u, e, k) = both_steps (import_row row n) (import_rows rows) s t n' h in
    let (turned, one) = import_row_turns row n m s u e clean in
    let (all_turned, more) = import_rows_turn rows m n' u t k turned.clean in
    (
      subst (λ c. Turns (imported_all rows c) t) (fun_ext turned.lookup) all_turned,
      ground (arith, one, more),
    )

unwrap : {a b : List ImportRow} → some a ≡ some b → a ≡ b
unwrap h = cc

add_complete-some :
    (first : Option ImportRow) (rest : Option (List ImportRow)) (full : List ImportRow)
    → add_complete first rest ≡ some full
    → (row : ImportRow) × (rows : List ImportRow) × (rest ≡ some rows) × (full ≡ row ∷ rows)
add_complete-some none rest full h = absurd cc
add_complete-some (some row) none full h = absurd cc
add_complete-some (some row) (some rows) full h = (row, rows, refl, sym (unwrap h))

length-complete_all :
    (rows : List CsvRow) (full : List ImportRow)
    → complete_all rows ≡ some full
    → length full ≡ length rows
unfolding complete_all
length-complete_all [] full h = ap length (sym (unwrap h))
length-complete_all (row ∷ rows) full h =
    let (first, rest, found, same) = add_complete-some (complete row) (complete_all rows) full h in
    ap length same ∙ ap suc (length-complete_all rows rest found)

imported_complete :
    (found : Option (List ImportRow)) (n : Counts) (s t : Session)
    → import_complete found s ≡ (ok n, t)
    → (full : List ImportRow) × (found ≡ some full)
      × (import_rows full (record { created = 0; updated = 0 }) s ≡ (ok n, t))
unfolding raise
imported_complete none n s t h = absurd cc
imported_complete (some full) n s t h = (full, refl, h)

-- An import that returns found the required columns in every row, has done to the catalog what its
-- rows say one after the other, each creating its product or writing the fields of the one that is
-- there, has committed it, and has counted every row once.
pub import_products_lem :
    (rows : List CsvRow) (n : Counts) (s t : Session)
    → import_products rows s ≡ (ok n, t)
    → IsClean s
    → (full : List ImportRow) × (complete_all rows ≡ some full)
      × ((k : ℕ) → catalog t k ≡ imported_all full (catalog s) k)
      × (t.committed ≡ t.rows)
      × (n.created + n.updated ≡ length rows)
unfolding import_products
import_products_lem rows n s t h clean =
    let (full, found, run) = imported_complete (complete_all rows) n s t h in
    let (turned, counted) =
      import_rows_turn full (record { created = 0; updated = 0 }) n s t run clean in
    (
      full,
      found,
      turned.lookup,
      turned.clean.all_committed,
      ground (arith, counted, length-complete_all rows full found),
    )
