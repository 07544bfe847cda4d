-- ===== src/Documents/Document.antt =====
-- `DocumentProduct` and `Document` of domain/entities/document.py. Prices are whole numbers of the
-- smallest unit of the currency, where the source has floats; a time is a number that the caller
-- reads from its clock. `created_at` is always `date` and is left out. The tests by `isinstance`
-- always pass on the values of the model.
pub mod Items
use wms_core.Base.{
  ℕ, ◌==◌, leb, ℤ, pos, ltb_ℤ, leb_ℤ, Bool, true, false, not, String, is_blank, Option, none, some,
  is_some, List, [], ◌∷◌, ◌++◌, if◌then◌else◌, find, update, is_nil,
}
use wms_core.Exec.{
  Result, ok, err, Exec, raise_if, lift, gets, modify, ◌>>=◌, ◌>>◌, invalid_id_error,
  invalid_quantity_error, validation_error, business_rule_violation_error, entity_not_found_error,
  invalid_document_status_error,
}
use wms_core.Documents.Types.{DocumentType, DocumentStatus, TransactionType}

pub data ExecutionStatus : Type 0 where
  executed : ExecutionStatus

pub record DocumentProduct : Type 0 where
  pub product_id : ℕ
  pub quantity : ℤ
  pub unit_price : ℤ
  pub requested_qty : ℤ
  pub reserved_qty : ℤ
  pub executed_qty : Option ℤ
  pub rejected_qty : ℤ
  pub difference_qty : ℤ
  pub execution_status : Option ExecutionStatus

unfoldable pub validate_product_id : ℕ → Result (Unit {0})
validate_product_id product_id = if leb product_id 0 then err invalid_id_error else ok tt

unfoldable pub validate_quantity : ℤ → Result (Unit {0})
validate_quantity quantity = if leb_ℤ quantity (pos 0) then err invalid_quantity_error else ok tt

unfoldable pub validate_unit_price : ℤ → Result (Unit {0})
validate_unit_price price = if ltb_ℤ price (pos 0) then err invalid_quantity_error else ok tt

-- A chain of checks that may raise, before any state is touched.
infixl 10 ◌and_then◌
abbrev pub ◌and_then◌ {ℓ} : {A : Type ℓ} → Result (Unit {0}) → Result A → Result A
ok _ and_then r = r
err e and_then r = err e

-- `DocumentProduct(product_id, quantity, unit_price)`
unfoldable pub new_product : ℕ → ℤ → ℤ → Result DocumentProduct
unfolding validate_product_id validate_quantity validate_unit_price
new_product product_id quantity unit_price =
    validate_product_id product_id
    and_then (validate_quantity quantity
        and_then (validate_unit_price unit_price
            and_then ok (record {
              product_id = product_id;
              quantity = quantity;
              unit_price = unit_price;
              requested_qty = quantity;
              reserved_qty = pos 0;
              executed_qty = none;
              rejected_qty = pos 0;
              difference_qty = pos 0;
              execution_status = none;
            })))

pub record Document : Type 0 where
  pub document_id : ℕ
  pub doc_type : DocumentType
  pub status : DocumentStatus
  pub date : ℕ
  pub posted_at : Option ℕ
  pub cancelled_at : Option ℕ
  pub cancelled_by : Option String
  pub cancellation_reason : Option String
  pub from_warehouse_id : Option ℕ
  pub to_warehouse_id : Option ℕ
  pub customer_id : Option ℕ
  pub items : List DocumentProduct
  pub created_by : String
  pub note : Option String
  pub approved_by : Option String
  pub transaction_type : Option TransactionType
  pub reason_code : Option String
  pub requested_by : Option String
  pub approved_at : Option ℕ
  pub execution_started_at : Option ℕ
  pub completed_at : Option ℕ
  pub assigned_to : Option String

-- The tests of `_validate_warehouses` on a transfer, once both warehouses are there.
abbrev distinct : ℕ → ℕ → Result (Unit {0})
distinct from to = if from == to then err business_rule_violation_error else ok tt

unfoldable pub validate_warehouses : DocumentType → Option ℕ → Option ℕ → Result (Unit {0})
validate_warehouses DocumentType.import from none = err validation_error
validate_warehouses DocumentType.import from (some to) = ok tt
validate_warehouses DocumentType.export none to = err validation_error
validate_warehouses DocumentType.export (some from) to = ok tt
validate_warehouses DocumentType.sale none to = err validation_error
validate_warehouses DocumentType.sale (some from) to = ok tt
validate_warehouses DocumentType.transfer none to = err validation_error
validate_warehouses DocumentType.transfer (some from) none = err validation_error
validate_warehouses DocumentType.transfer (some from) (some to) = distinct from to

abbrev pub validate_document_id : ℕ → Result (Unit {0})
validate_document_id id = if leb id 0 then err invalid_id_error else ok tt

-- The test of `_validate_created_by`, and of the names of who posts or cancels.
abbrev pub validate_name : String → Result (Unit {0})
validate_name name = if is_blank name then err validation_error else ok tt

-- The arguments of `Document(...)`, with the time that the constructor reads.
pub record NewDocument : Type 0 where
  pub document_id : ℕ
  pub doc_type : DocumentType
  pub from_warehouse_id : Option ℕ
  pub to_warehouse_id : Option ℕ
  pub items : List DocumentProduct
  pub created_by : String
  pub note : Option String
  pub customer_id : Option ℕ
  pub now : ℕ

abbrev pub draft_of : NewDocument → Document
draft_of n = record {
  document_id = n.document_id;
  doc_type = n.doc_type;
  status = DocumentStatus.draft;
  date = n.now;
  posted_at = none;
  cancelled_at = none;
  cancelled_by = none;
  cancellation_reason = none;
  from_warehouse_id = n.from_warehouse_id;
  to_warehouse_id = n.to_warehouse_id;
  customer_id = n.customer_id;
  items = n.items;
  created_by = n.created_by;
  note = n.note;
  approved_by = none;
  transaction_type = none;
  reason_code = none;
  requested_by = none;
  approved_at = none;
  execution_started_at = none;
  completed_at = none;
  assigned_to = none;
}

-- `Document.__init__`
unfoldable pub new_document : NewDocument → Result Document
unfolding validate_warehouses
new_document n =
    validate_document_id n.document_id
    and_then (validate_warehouses n.doc_type n.from_warehouse_id n.to_warehouse_id
        and_then (validate_name n.created_by and_then ok (draft_of n)))

abbrev pub is_draft : DocumentStatus → Bool
is_draft DocumentStatus.draft = true
is_draft _ = false

abbrev pub is_posted : DocumentStatus → Bool
is_posted DocumentStatus.posted = true
is_posted _ = false

abbrev pub is_cancelled : DocumentStatus → Bool
is_cancelled DocumentStatus.cancelled = true
is_cancelled _ = false

abbrev pub of_product : ℕ → DocumentProduct → Bool
of_product product_id item = item.product_id == product_id

abbrev Method : Type 0
Method = Exec Document (Unit {0})

ensure_draft_status : Method
ensure_draft_status d = raise_if (not (is_draft d.status)) invalid_document_status_error d

abbrev has_product : ℕ → Document → Bool
has_product product_id d = is_some (find (of_product product_id) d.items)

unfoldable pub add_item : DocumentProduct → Method
unfolding ensure_draft_status find
add_item item = do
  ensure_draft_status
  known ← gets (has_product item.product_id)
  raise_if known business_rule_violation_error
  modify (λ d. record d { items = d.items ++ item ∷ [] })

-- `items.pop(index)` at the first line of the product
unfoldable pub pop_product : ℕ → List DocumentProduct → List DocumentProduct
pop_product product_id [] = []
pop_product product_id (x ∷ xs) =
    if of_product product_id x then xs else x ∷ pop_product product_id xs

unfoldable pub remove_item : ℕ → Method
unfolding ensure_draft_status find pop_product
remove_item product_id = do
  ensure_draft_status
  known ← gets (has_product product_id)
  raise_if (not known) entity_not_found_error
  modify (λ d. record d { items = pop_product product_id d.items })

unfoldable pub update_item : ℕ → ℤ → ℤ → Method
unfolding ensure_draft_status find update validate_quantity validate_unit_price
update_item product_id quantity unit_price = do
  ensure_draft_status
  lift (validate_quantity quantity)
  lift (validate_unit_price unit_price)
  known ← gets (has_product product_id)
  raise_if (not known) entity_not_found_error
  modify (λ d. record d {
    items =
        update (of_product product_id)
          (λ item. record item { quantity = quantity; unit_price = unit_price }) d.items;
  })

unfoldable pub post : String → ℕ → Method
post approved_by now d =
    (do
      raise_if (not (is_draft d.status)) invalid_document_status_error
      lift (validate_name approved_by)
      raise_if (is_nil d.items) business_rule_violation_error
      modify (λ d. record d {
        status = DocumentStatus.posted;
        approved_by = some approved_by;
        posted_at = some now;
      }))
      d

unfoldable pub cancel : String → Option String → ℕ → Method
cancel cancelled_by reason now d =
    (do
      raise_if (is_posted d.status) invalid_document_status_error
      raise_if (is_cancelled d.status) invalid_document_status_error
      lift (validate_name cancelled_by)
      modify (λ d. record d {
        status = DocumentStatus.cancelled;
        cancelled_at = some now;
        cancelled_by = some cancelled_by;
        cancellation_reason = reason;
      }))
      d

unfoldable pub can_be_modified : Document → Bool
can_be_modified d = is_draft d.status
