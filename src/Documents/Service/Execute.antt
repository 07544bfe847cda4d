-- ===== src/Documents/Service/Execute.antt =====
-- `confirm_execution`.
use wms_core.Base.{
  ℕ, ◌==◌, ℤ, pos, ◌-ℤ◌, ltb_ℤ, Bool, true, false, not, ◌&&◌, ◌||◌, String, str_eq, Option, none,
  some, List, [], ◌∷◌, if◌then◌else◌, is_nil,
}
use wms_core.Exec.{
  Result, ok, err, pure, raise_if, lift, ◌>>=◌, ◌>>◌, validation_error,
  invalid_document_status_error,
}
use wms_core.Documents.Types.{DocumentStatus, requires_reason_code}
use wms_core.Documents.Document.{Document, DocumentProduct, ExecutionStatus, ◌and_then◌, of_product}
use wms_core.Documents.Repo.{Action, DocumentEvent, ◌then_with◌}
use wms_core.Documents.Service.Create.{publish}
use wms_core.Documents.Service.Lifecycle.{get_document, save_and_commit}

-- A dictionary of the payload: `none` where the key is missing.
pub record ItemConfirmation : Type 0 where
  pub product_id : Option ℕ
  pub quantity : Option ℤ

-- A dictionary with both keys.
pub record Executed : Type 0 where
  pub product_id : ℕ
  pub quantity : ℤ

-- The statuses in which `confirm_execution` goes on.
unfoldable pub is_confirmable : DocumentStatus → Bool
is_confirmable DocumentStatus.in_progress = true
is_confirmable DocumentStatus.posted = true
is_confirmable DocumentStatus.reserved = true
is_confirmable DocumentStatus.executed = true
is_confirmable _ = false

unfoldable pub member : ℕ → List ℕ → Bool
member id [] = false
member id (x ∷ xs) = x == id || member id xs

-- `item_map[product_id]`: a later line of a product replaces an earlier one in the dictionary.
unfoldable pub find_last : ℕ → List DocumentProduct → Option DocumentProduct
find_last id [] = none
find_last id (x ∷ xs) = elim (find_last id xs) [
  | some y ↦ some y
  | none ↦ if of_product id x then some x else none
]

-- `max(item.requested_qty, item.reserved_qty)`
abbrev pub limit_of : DocumentProduct → ℤ
limit_of item =
    if ltb_ℤ item.requested_qty item.reserved_qty then item.reserved_qty else item.requested_qty

abbrev check_quantity : ℤ → DocumentProduct → Result (Unit {0})
check_quantity quantity item =
    if ltb_ℤ (limit_of item) quantity then err validation_error else ok tt

-- One round of the first loop, once both keys are there.
unfoldable pub check_executed : List DocumentProduct → List ℕ → Executed → Result (Unit {0})
unfolding member find_last
check_executed items seen e =
    if member e.product_id seen then err validation_error else elim (find_last e.product_id items) [
      | none ↦ err validation_error
      | some item ↦
          if ltb_ℤ e.quantity (pos 0) then err validation_error else check_quantity e.quantity item
    ]

abbrev pub fields_of : Option ℕ → Option ℤ → Result Executed
fields_of none quantity = err validation_error
fields_of (some id) none = err validation_error
fields_of (some id) (some quantity) = ok (record { product_id = id; quantity = quantity })

-- The first loop: the confirmed lines, or the first error.
unfoldable pub check_all :
    List DocumentProduct → List ℕ → List ItemConfirmation → Result (List Executed)
unfolding check_executed
check_all items seen [] = ok []
check_all items seen (c ∷ rest) =
    let later =
      λ (e : Executed). check_all items (e.product_id ∷ seen) rest then_with λ es. ok (e ∷ es) in
    fields_of c.product_id c.quantity then_with λ e. (check_executed items seen e and_then later e)

abbrev pub ids_of : List Executed → List ℕ
ids_of [] = []
ids_of (e ∷ es) = e.product_id ∷ ids_of es

-- The loop that rejects an expected product with no confirmation.
unfoldable pub none_missing : List Executed → List DocumentProduct → Bool
unfolding member
none_missing es [] = true
none_missing es (item ∷ items) = member item.product_id (ids_of es) && none_missing es items

abbrev pub execute_line : ℤ → DocumentProduct → DocumentProduct
execute_line quantity item = record item {
  executed_qty = some quantity;
  difference_qty = item.requested_qty -ℤ quantity;
  execution_status = some ExecutionStatus.executed;
}

abbrev pub is_there : Option DocumentProduct → Bool
is_there none = false
is_there (some item) = true

-- A write to `item_map[product_id]`.
unfoldable pub update_last :
    ℕ → (DocumentProduct → DocumentProduct) → List DocumentProduct → List DocumentProduct
unfolding find_last
update_last id f [] = []
update_last id f (x ∷ xs) =
    if is_there (find_last id xs)
    then x ∷ update_last id f xs
    else if of_product id x
    then f x ∷ xs
    else x ∷ xs

-- The loop that writes the executed quantities.
unfoldable pub execute_all : List Executed → List DocumentProduct → List DocumentProduct
unfolding update_last
execute_all [] items = items
execute_all (e ∷ es) items =
    execute_all es (update_last e.product_id (execute_line e.quantity) items)

-- `not document.reason_code`
abbrev pub no_reason : Option String → Bool
no_reason none = true
no_reason (some text) = str_eq text ""

-- What is validated after the status: reason code, payload, lines.
unfoldable pub validate_execution : Document → List ItemConfirmation → Result (List Executed)
unfolding requires_reason_code check_all none_missing
validate_execution d items =
    if requires_reason_code d.transaction_type && no_reason d.reason_code
    then err validation_error
    else if is_nil items
    then err validation_error
    else (check_all d.items [] items then_with λ es.
        if none_missing es d.items then ok es else err validation_error)

abbrev pub executed : List Executed → Document → Document
executed es d = record d { items = execute_all es d.items; status = DocumentStatus.executed }

unfoldable pub confirm_execution : ℕ → List ItemConfirmation → Option String → Action Document
unfolding get_document is_confirmable validate_execution execute_all save_and_commit
confirm_execution document_id items request_id = do
  d ← get_document document_id
  raise_if (not (is_confirmable d.status)) invalid_document_status_error
  es ← lift (validate_execution d items)
  let document = executed es d
  save_and_commit document
  publish (DocumentEvent.execution_confirmed request_id document)
  pure document
