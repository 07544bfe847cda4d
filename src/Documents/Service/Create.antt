-- ===== src/Documents/Service/Create.antt =====
-- The four methods that create a document, and `_validate_and_convert_items`.
use wms_core.Base.{
  ℕ, ℤ, pos, ltb_ℤ, leb_ℤ, String, Option, none, some, List, [], ◌∷◌, ◌++◌, if◌then◌else◌, is_nil,
}
use wms_core.Exec.{
  Result, ok, err, lift, pure, publish_error, ◌>>=◌, ◌>>◌, validation_error, invalid_quantity_error,
}
use wms_core.Documents.Types.{DocumentType, TransactionType}
use wms_core.Documents.Document.{Document, DocumentProduct, new_product, new_document}
use wms_core.Documents.Repo.{Action, DocumentEvent, ◌then_with◌, commit, next_id, save}

abbrev pub publish : DocumentEvent → Action (Unit {0})
publish e s =
    let taken = s.takes s.published e in
    (
      if taken then ok tt else err publish_error,
      record s { published = if taken then s.published ++ e ∷ [] else s.published },
    )

-- A dictionary of a line, by what `dict.get` returns.
pub record ItemData : Type 0 where
  pub product_id : Option ℕ
  pub quantity : Option ℤ
  pub unit_price : Option ℤ

-- `item_data.get("unit_price", 0)`, and 0 in place of `None`
abbrev pub price_of : Option ℤ → ℤ
price_of none = pos 0
price_of (some price) = price

abbrev convert_known : ℕ → ℤ → ℤ → Result DocumentProduct
convert_known product_id quantity price =
    if leb_ℤ quantity (pos 0)
    then err invalid_quantity_error
    else if ltb_ℤ price (pos 0)
    then err validation_error
    else new_product product_id quantity price

-- The body of the loop of `_validate_and_convert_items`.
abbrev pub convert_fields : Option ℕ → Option ℤ → ℤ → Result DocumentProduct
convert_fields none quantity price = err validation_error
convert_fields (some product_id) none price = err validation_error
convert_fields (some product_id) (some quantity) price = convert_known product_id quantity price

unfoldable pub convert_items : List ItemData → Result (List DocumentProduct)
unfolding new_product
convert_items [] = ok []
convert_items (i ∷ rest) =
    convert_fields i.product_id i.quantity (price_of i.unit_price) then_with λ p.
    convert_items rest then_with λ ps. ok (p ∷ ps)

unfoldable pub validate_and_convert_items : List ItemData → Result (List DocumentProduct)
unfolding convert_items
validate_and_convert_items items =
    if is_nil items then err validation_error else convert_items items

-- What the four methods are given.
pub record Creation : Type 0 where
  pub items : List ItemData
  pub created_by : String
  pub note : Option String
  pub transaction_type : Option TransactionType
  pub reason_code : Option String
  pub request_id : Option String
  pub now : ℕ

-- The common body of the four methods.
unfoldable pub create : DocumentType → Option ℕ → Option ℕ → Option ℕ → Creation → Action Document
unfolding next_id validate_and_convert_items new_document save commit
create doc_type from_warehouse_id to_warehouse_id customer_id c = do
  document_id ← next_id
  items ← lift (validate_and_convert_items c.items)
  d ← lift (
      new_document (record {
        document_id = document_id;
        doc_type = doc_type;
        from_warehouse_id = from_warehouse_id;
        to_warehouse_id = to_warehouse_id;
        items = items;
        created_by = c.created_by;
        note = c.note;
        customer_id = customer_id;
        now = c.now;
      }))
  let document = record d { transaction_type = c.transaction_type; reason_code = c.reason_code }
  save document
  commit
  publish (DocumentEvent.document_uploaded c.request_id document)
  pure document

unfoldable pub create_import_document : ℕ → Creation → Action Document
unfolding create
create_import_document to_warehouse_id = create DocumentType.import none (some to_warehouse_id) none

unfoldable pub create_export_document : ℕ → Creation → Action Document
unfolding create
create_export_document from_warehouse_id =
    create DocumentType.export (some from_warehouse_id) none none

unfoldable pub create_sale_document : ℕ → Option ℕ → Creation → Action Document
unfolding create
create_sale_document from_warehouse_id customer_id =
    create DocumentType.sale (some from_warehouse_id) none customer_id

unfoldable pub create_transfer_document : ℕ → ℕ → Creation → Action Document
unfolding create
create_transfer_document from_warehouse_id to_warehouse_id =
    create DocumentType.transfer (some from_warehouse_id) (some to_warehouse_id) none
