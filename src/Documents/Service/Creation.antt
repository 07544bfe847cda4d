-- ===== src/Documents/Service/Creation.antt =====
-- The documents that the service creates.
use wms_core.Base.{
  ℕ, leb, ℤ, pos, ltb_ℤ, leb_ℤ, ◌≡◌, refl, sym, ap, ◌∙◌, Bool, true, false, String, Option, none,
  some, List, [], ◌∷◌, arith, if◌then◌else◌, Bool-cases, inl, inr, All, is_nil,
}
use mathlib.Core.Path.{subst}
use wms_core.Exec.{Error, Result, ok, err}
use wms_core.Documents.Types.{DocumentType, DocumentStatus, TransactionType}
use wms_core.Documents.Document.{
  Document, DocumentProduct, NewDocument, draft_of, new_product, new_document, validate_warehouses,
  validate_document_id, validate_name, validate_product_id, validate_quantity, validate_unit_price,
}
use wms_core.Documents.Repo.{Session}
use wms_core.Documents.Repo.RoundTrip.{IsLine, IsStorable}
use wms_core.Documents.Results.{then_ok, and_ok, unwrap}
use wms_core.Documents.Service.Gives.{Gives, Gives-pure, Gives-bind, Gives-lift}
use wms_core.Documents.Service.Create.{
  ItemData, Creation, convert_fields, price_of, convert_items, validate_and_convert_items, create,
}

new_product-IsLine :
    (id : ℕ) (quantity price : ℤ) (p : DocumentProduct)
    → new_product id quantity price ≡ ok p
    → IsLine p
unfolding new_product validate_product_id validate_quantity validate_unit_price
new_product-IsLine id quantity price p h = elim (Bool-cases (leb id 0)) [
  | inl e ↦ absurd (ground (arith, e))
  | inr e ↦ elim (Bool-cases (leb_ℤ quantity (pos 0))) [
    | inl f ↦ absurd (ground (arith, e, f))
    | inr f ↦ elim (Bool-cases (ltb_ℤ price (pos 0))) [
      | inl g ↦ absurd (ground (arith, e, f, g))
      | inr g ↦
          subst IsLine (unwrap (rw g at (rw f at (rw e at h))))
            (record { has_id = e; has_quantity = f; has_price = g })
    ]
  ]
]

convert_fields-IsLine :
    (id : Option ℕ) (quantity : Option ℤ) (price : ℤ) (p : DocumentProduct)
    → convert_fields id quantity price ≡ ok p
    → IsLine p
convert_fields-IsLine none quantity price p h = absurd cc
convert_fields-IsLine (some id) none price p h = absurd cc
convert_fields-IsLine (some id) (some quantity) price p h =
    new_product-IsLine id quantity price p (ground arith)

convert_items-IsLine :
    (items : List ItemData) (ps : List DocumentProduct)
    → convert_items items ≡ ok ps
    → All IsLine ps
unfolding convert_items
convert_items-IsLine [] ps h = subst (All IsLine) (unwrap h) tt
convert_items-IsLine (i ∷ rest) ps h =
    let (p, converted, more) =
      then_ok (convert_fields i.product_id i.quantity (price_of i.unit_price)) _ ps h in
    let (ps', converted_rest, whole) = then_ok (convert_items rest) _ ps more in
    subst (All IsLine) (unwrap whole) (
      convert_fields-IsLine i.product_id i.quantity (price_of i.unit_price) p converted,
      convert_items-IsLine rest ps' converted_rest,
    )

convert_items-is_nil :
    (i : ItemData) (rest : List ItemData) (ps : List DocumentProduct)
    → convert_items (i ∷ rest) ≡ ok ps
    → is_nil ps ≡ false
unfolding convert_items
convert_items-is_nil i rest ps h =
    let (p, converted, more) =
      then_ok (convert_fields i.product_id i.quantity (price_of i.unit_price)) _ ps h in
    let (ps', converted_rest, whole) = then_ok (convert_items rest) _ ps more in
    subst (λ x. is_nil x ≡ false) (unwrap whole) refl

items-IsLine :
    (items : List ItemData) (ps : List DocumentProduct)
    → validate_and_convert_items items ≡ ok ps
    → All IsLine ps × (is_nil ps ≡ false)
unfolding validate_and_convert_items
items-IsLine [] ps h = absurd cc
items-IsLine (i ∷ rest) ps h =
    (convert_items-IsLine (i ∷ rest) ps h, convert_items-is_nil i rest ps h)

passed :
    (test : Bool) (e : Error)
    → (if◌then◌else◌ {A = Result (Unit {0})} test (err e) (ok tt)) ≡ ok tt
    → test ≡ false
passed true e h = absurd cc
passed false e h = refl

-- What the constructor has checked.
new_document-IsStorable :
    (n : NewDocument) (d : Document)
    → new_document n ≡ ok d
    → All IsLine n.items
    → IsStorable d × (d ≡ draft_of n)
unfolding new_document
new_document-IsStorable n d h lines =
    let (id_ok, h1) = and_ok (validate_document_id n.document_id) _ d h in
    let (warehouses_ok, h2) =
      and_ok (validate_warehouses n.doc_type n.from_warehouse_id n.to_warehouse_id) _ d h1 in
    let (name_ok, h3) = and_ok (validate_name n.created_by) _ d h2 in
    let storable : IsStorable (draft_of n) = record {
      has_id = passed _ _ id_ok;
      has_warehouses = warehouses_ok;
      has_author = passed _ _ name_ok;
      has_lines = lines;
    } in
    (subst IsStorable (unwrap h3) storable, sym (unwrap h3))

-- What a created document is like.
record IsFresh (d : Document) : Type 0 where
  storable : IsStorable d
  status : d.status ≡ DocumentStatus.draft
  not_empty : is_nil d.items ≡ false

with_type :
    (d : Document) (t : Option TransactionType) (r : Option String)
    → IsFresh d
    → IsFresh (record d { transaction_type = t; reason_code = r })
with_type d t r fresh = record {
  storable = record {
    has_id = fresh.storable.has_id;
    has_warehouses = fresh.storable.has_warehouses;
    has_author = fresh.storable.has_author;
    has_lines = fresh.storable.has_lines;
  };
  status = fresh.status;
  not_empty = fresh.not_empty;
}

-- What `create` gives to the constructor.
abbrev arguments :
    DocumentType
    → Option ℕ
    → Option ℕ
    → Option ℕ
    → Creation
    → ℕ
    → List DocumentProduct
    → NewDocument
arguments doc_type from to customer c id items = record {
  document_id = id;
  doc_type = doc_type;
  from_warehouse_id = from;
  to_warehouse_id = to;
  items = items;
  created_by = c.created_by;
  note = c.note;
  customer_id = customer;
  now = c.now;
}

create-IsFresh :
    (doc_type : DocumentType) (from to customer : Option ℕ) (c : Creation)
    → Gives IsFresh (create doc_type from to customer c)
unfolding create
create-IsFresh doc_type from to customer c = Gives-bind _ _ _ (λ id.
    Gives-lift _ _ _ (λ items converted.
      let (lines, not_empty) = items-IsLine c.items items converted in
      Gives-lift _ _ _ (λ d made.
        let (storable, same) =
          new_document-IsStorable (arguments doc_type from to customer c id items) d made lines in
        Gives-bind _ _ _ (λ _. Gives-bind _ _ _ (λ _. Gives-bind _ _ _ (λ _. Gives-pure IsFresh _ (
          with_type d _ _ (record {
            storable = storable;
            status = ap (λ x. x.status) same;
            not_empty = ap (λ x. is_nil x.items) same ∙ not_empty;
          }))))))))

-- A document that the service creates, of any type, is a draft with at least one line, and it and its
-- lines meet what their constructors ask, so that it can be read back from the database.
pub create-IsStorable :
    (doc_type : DocumentType) (from to customer : Option ℕ) (c : Creation) (s : Session)
    (d : Document)
    → (create doc_type from to customer c s).0 ≡ ok d
    → IsStorable d × (d.status ≡ DocumentStatus.draft) × (is_nil d.items ≡ false)
create-IsStorable doc_type from to customer c s d h =
    let fresh = (create-IsFresh doc_type from to customer c).at s d h in
    (fresh.storable, fresh.status, fresh.not_empty)
