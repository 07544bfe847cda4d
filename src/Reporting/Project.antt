-- ===== src/Reporting/Project.antt =====
-- `_project` and what it calls for documents, sales and stock events, in
-- modules/reporting/infrastructure/repositories/read_model_repo.py. Values of a payload have the type
-- that the code converts them to, so `int` and `float` fail only where there is none; a price is a
-- whole number of the smallest unit.
use Prim.Native.Char.{code}
use wms_core.Base.{
  ℕ, ℤ, pos, pos_part, neg_part, ◌+ℤ◌, negate, ◌+◌, ◌*◌, ◌==◌, Bool, true, false, ◌&&◌, ◌||◌,
  String, str_eq, Option, none, some, is_some, List, [], ◌∷◌, ◌++◌, find, update, sum_by,
  if◌then◌else◌,
}
use wms_core.Exec.{pure, lift, modify, gets, ◌>>=◌, ◌>>◌, for_each}
use wms_core.Reporting.Rows.{
  Field, get, required, get_or, PayloadItem, Payload, DocumentSummary, SalesSummary,
}
use wms_core.Reporting.Session.{Session, Action}
use wms_core.Reporting.Stock.{update_inventory, update_warehouse}

-- `a * b`
abbrev pub times : ℤ → ℤ → ℤ
times a b =
    pos (pos_part a * pos_part b + neg_part a * neg_part b)
    +ℤ negate (pos (pos_part a * neg_part b + neg_part a * pos_part b))

-- `text.upper() == word`, for a text of ASCII characters and a word of capital letters.
unfoldable pub upper_is : String → String → Bool
upper_is String.[] String.[] = true
upper_is String.[] (String.◌∷◌ d word) = false
upper_is (String.◌∷◌ c text) String.[] = false
upper_is (String.◌∷◌ c text) (String.◌∷◌ d word) =
    (code c == code d || code c == code d + 32) && upper_is text word

-- `payload.get(key) or default` for a text: the empty one counts as none.
abbrev pub text_or : String → Field String → String
text_or default f = let text = get_or "" f in if str_eq text "" then default else text

abbrev of_document : ℕ → DocumentSummary → Bool
of_document document_id row = row.document_id == document_id

abbrev of_sale : ℕ → SalesSummary → Bool
of_sale document_id row = row.document_id == document_id

abbrev copy_to_sale : DocumentSummary → SalesSummary → SalesSummary
copy_to_sale d row = record row {
  customer_id = d.customer_id;
  status = d.status;
  total_quantity = d.total_quantity;
  total_value = d.total_value;
}

abbrev new_sale : DocumentSummary → SalesSummary
new_sale d = record {
  document_id = d.document_id;
  customer_id = none;
  status = d.status;
  total_quantity = none;
  total_value = none;
}

abbrev write_sale : DocumentSummary → Bool → Session → Session
write_sale d found s =
    if found
    then record s { sales = update (of_sale d.document_id) (copy_to_sale d) s.sales }
    else record s { new = record s.new { sales = s.new.sales ++ copy_to_sale d (new_sale d) ∷ [] } }

unfoldable pub upsert_sale_from_document : DocumentSummary → Action (Unit {0})
unfolding find update
upsert_sale_from_document d = do
  row ← gets (λ s. find (of_sale d.document_id) s.sales)
  modify (write_sale d (is_some row))

-- `if row.doc_type == "SALE": self._upsert_sale_from_document(row)`
unfoldable pub sale_of : DocumentSummary → Action (Unit {0})
unfolding upsert_sale_from_document
sale_of d = if str_eq d.doc_type "SALE" then upsert_sale_from_document d else pure tt

-- `DocumentSummary(document_id=..., doc_type=..., status=...)`
abbrev new_document : ℕ → Payload → String → DocumentSummary
new_document document_id payload status = record {
  document_id = document_id;
  doc_type = text_or "" payload.doc_type;
  status = status;
  customer_id = none;
  from_warehouse_id = none;
  to_warehouse_id = none;
  total_quantity = none;
  executed_quantity = pos 0;
  total_value = none;
  created_at = none;
  posted_at = none;
}

-- The row of the document, or a new one, with the writes `f`; and then the row of its sale.
abbrev write_document :
    ℕ → (DocumentSummary → DocumentSummary) → Bool → DocumentSummary → Session → Session
write_document document_id f found d s =
    if found
    then record s { documents = update (of_document document_id) f s.documents }
    else record s { new = record s.new { documents = s.new.documents ++ d ∷ [] } }

abbrev pub or_new : DocumentSummary → Option DocumentSummary → DocumentSummary
or_new d none = d
or_new d (some row) = row

unfoldable pub write_and_sell :
    ℕ → DocumentSummary → (DocumentSummary → DocumentSummary) → Action (Unit {0})
unfolding find update sale_of
write_and_sell document_id fresh f = do
  row ← gets (λ s. find (of_document document_id) s.documents)
  modify (write_document document_id f (is_some row) (f (or_new fresh row)))
  sale_of (f (or_new fresh row))

abbrev quantity_of : PayloadItem → ℤ
quantity_of item = get_or (pos 0) item.quantity

abbrev value_of : PayloadItem → ℤ
value_of item = times (get_or (pos 0) item.quantity) (get_or (pos 0) item.unit_price)

abbrev items_of : Payload → List PayloadItem
items_of payload = get_or [] payload.items

unfoldable pub upsert_document : Payload → String → Action (Unit {0})
unfolding sum_by write_and_sell
upsert_document payload status = do
  document_id ← lift (required payload.document_id)
  write_and_sell document_id (new_document document_id payload status) (λ row. record row {
    doc_type = text_or row.doc_type payload.doc_type;
    status = status;
    customer_id = get payload.customer_id;
    from_warehouse_id = get payload.from_warehouse_id;
    to_warehouse_id = get payload.to_warehouse_id;
    total_quantity = some (sum_by quantity_of (items_of payload));
    total_value = some (sum_by value_of (items_of payload));
    created_at = get payload.created_at;
  })

-- `if posted_at: row.posted_at = posted_at`
abbrev posted : Field String → DocumentSummary → DocumentSummary
posted f row =
    let text = get_or "" f in if str_eq text "" then row else record row { posted_at = some text }

unfoldable pub mark_document_status : Payload → String → Field String → Action (Unit {0})
unfolding write_and_sell
mark_document_status payload status posted_at = do
  document_id ← lift (required payload.document_id)
  write_and_sell document_id (new_document document_id payload status)
      (λ row. posted posted_at (record row { status = status }))

abbrev execute : ℤ → DocumentSummary → DocumentSummary
execute quantity row = record row { executed_quantity = quantity; status = "EXECUTED" }

-- The row of the document, where there is one.
abbrev pub execute_found : ℕ → ℤ → Option DocumentSummary → Action (Unit {0})
execute_found document_id quantity none = pure tt
execute_found document_id quantity (some row) =
    modify (λ s. record s {
      documents = update (of_document document_id) (execute quantity) s.documents;
    })
    >> sale_of (execute quantity row)

-- The branch of `WarehouseExecutionConfirmed`.
unfoldable pub confirm_document : Payload → Action (Unit {0})
unfolding find update sum_by sale_of
confirm_document payload = do
  document_id ← lift (required payload.document_id)
  row ← gets (λ s. find (of_document document_id) s.documents)
  execute_found document_id (sum_by quantity_of (items_of payload)) row

abbrev of_type : Payload → String → Bool
of_type payload word = upper_is (text_or "" payload.doc_type) word

-- One line of a movement.
unfoldable pub move_line : Payload → Option ℕ → PayloadItem → Action (Unit {0})
unfolding upper_is update_inventory update_warehouse
move_line payload document_id item = do
  product_id ← lift (required item.product_id)
  quantity ← lift (required item.quantity)
  (if of_type payload "IMPORT"
      then (do
        update_inventory product_id quantity (get payload.to_warehouse_id) none
        update_warehouse (get payload.to_warehouse_id) quantity document_id)
      else if of_type payload "EXPORT" || of_type payload "SALE"
      then (do
        update_inventory product_id (negate quantity) (get payload.from_warehouse_id) none
        update_warehouse (get payload.from_warehouse_id) (negate quantity) document_id)
      else if of_type payload "TRANSFER"
      then (do
        update_inventory product_id (pos 0) (get payload.from_warehouse_id) (some (negate quantity))
        update_inventory product_id (pos 0) (get payload.to_warehouse_id) (some quantity)
        update_warehouse (get payload.from_warehouse_id) (negate quantity) document_id
        update_warehouse (get payload.to_warehouse_id) quantity document_id)
      else pure tt)

unfoldable pub apply_inventory_projection : Payload → Action (Unit {0})
unfolding move_line
apply_inventory_projection payload =
    for_each (items_of payload) (move_line payload (get payload.document_id))

unfoldable pub apply_inventory_adjustment : Payload → Action (Unit {0})
unfolding update_inventory update_warehouse
apply_inventory_adjustment payload = do
  product_id ← lift (required payload.product_id)
  quantity_delta ← lift (required payload.quantity_delta)
  update_inventory product_id quantity_delta (get payload.warehouse_id) none
  update_warehouse (get payload.warehouse_id) quantity_delta none
