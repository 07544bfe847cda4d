-- ===== src/Documents/Repo.antt =====
-- `DocumentRepo`, infrastructure/repositories/document_repo.py, over the tables `documents` and
-- `document_items` of infrastructure/models/*.py, with the items of a document in its row. The enum
-- members stand for the texts of their columns. The session does not flush before a query
-- (`autoflush=False`): an added row is seen by the next flush. The generator of ids is
-- shared/utils/infrastructure/id_generator.py.
pub mod RoundTrip
use mathlib.Core.Option
use wms_core.Base.{
  ℕ, ◌+◌, ◌==◌, max, ℤ, pos, Bool, true, not, ◌&&◌, String, Option, none, some, List, [], ◌∷◌, ◌++◌,
  map, if◌then◌else◌, find, update, all, select,
}
use wms_core.Exec.{
  Result, ok, err, Exec, pure, raise, lift, gets, modify, ◌>>=◌, ◌>>◌, integrity_error,
  document_not_found_error,
}
use wms_core.Documents.Types.{DocumentType, DocumentStatus, TransactionType}
use wms_core.Documents.Document.{
  Document, DocumentProduct, ExecutionStatus, NewDocument, new_document, new_product,
}

-- `DocumentItemModel`
pub record ItemRow : Type 0 where
  pub product_id : ℕ
  pub quantity : ℤ
  pub unit_price : ℤ
  pub requested_qty : Option ℤ
  pub reserved_qty : Option ℤ
  pub executed_qty : Option ℤ
  pub rejected_qty : Option ℤ
  pub difference_qty : Option ℤ
  pub execution_status : Option ExecutionStatus

-- `DocumentModel`; it has no column for `cancelled_by`.
pub record DocumentRow : Type 0 where
  pub document_id : ℕ
  pub doc_type : DocumentType
  pub status : DocumentStatus
  pub from_warehouse_id : Option ℕ
  pub to_warehouse_id : Option ℕ
  pub created_by : String
  pub approved_by : Option String
  pub note : Option String
  pub customer_id : Option ℕ
  pub created_at : ℕ
  pub posted_at : Option ℕ
  pub cancelled_at : Option ℕ
  pub cancellation_reason : Option String
  pub transaction_type : Option TransactionType
  pub reason_code : Option String
  pub requested_by : Option String
  pub approved_at : Option ℕ
  pub execution_started_at : Option ℕ
  pub completed_at : Option ℕ
  pub assigned_to : Option String
  pub items : List ItemRow

abbrev pub item_row_of : DocumentProduct → ItemRow
item_row_of item = record {
  product_id = item.product_id;
  quantity = item.quantity;
  unit_price = item.unit_price;
  requested_qty = some item.requested_qty;
  reserved_qty = some item.reserved_qty;
  executed_qty = item.executed_qty;
  rejected_qty = some item.rejected_qty;
  difference_qty = some item.difference_qty;
  execution_status = item.execution_status;
}

-- The columns that `save` writes, the same for a new row and for one that is there; a time goes
-- through its column.
abbrev pub row_of : (ℕ → ℕ) → Document → DocumentRow
row_of column_time d = record {
  document_id = d.document_id;
  doc_type = d.doc_type;
  status = d.status;
  from_warehouse_id = d.from_warehouse_id;
  to_warehouse_id = d.to_warehouse_id;
  created_by = d.created_by;
  approved_by = d.approved_by;
  note = d.note;
  customer_id = d.customer_id;
  created_at = column_time d.date;
  posted_at = Option.map column_time d.posted_at;
  cancelled_at = Option.map column_time d.cancelled_at;
  cancellation_reason = d.cancellation_reason;
  transaction_type = d.transaction_type;
  reason_code = d.reason_code;
  requested_by = d.requested_by;
  approved_at = Option.map column_time d.approved_at;
  execution_started_at = Option.map column_time d.execution_started_at;
  completed_at = Option.map column_time d.completed_at;
  assigned_to = d.assigned_to;
  items = map item_row_of d.items;
}

-- `x if x is not None else default`
abbrev int_or : Option ℤ → ℤ → ℤ
int_or none default = default
int_or (some q) default = q

-- The lifecycle columns of a line, put back on the product that the constructor made.
abbrev pub restored : ItemRow → DocumentProduct → DocumentProduct
restored row p = record p {
  requested_qty = int_or row.requested_qty row.quantity;
  reserved_qty = int_or row.reserved_qty (pos 0);
  executed_qty = row.executed_qty;
  rejected_qty = int_or row.rejected_qty (pos 0);
  difference_qty = int_or row.difference_qty (pos 0);
  execution_status = row.execution_status;
}

infixl 10 ◌then_with◌
abbrev pub ◌then_with◌ {ℓ κ} : {A : Type ℓ} {B : Type κ} → Result A → (A → Result B) → Result B
ok a then_with f = f a
err e then_with f = err e

-- The loop of `_to_domain`; the constructor may raise.
unfoldable pub items_of : List ItemRow → Result (List DocumentProduct)
unfolding new_product
items_of [] = ok []
items_of (row ∷ rows) = new_product row.product_id row.quantity row.unit_price then_with λ p.
    items_of rows then_with λ ps. ok (restored row p ∷ ps)

abbrev pub arguments_of : DocumentRow → List DocumentProduct → NewDocument
arguments_of row items = record {
  document_id = row.document_id;
  doc_type = row.doc_type;
  from_warehouse_id = row.from_warehouse_id;
  to_warehouse_id = row.to_warehouse_id;
  items = items;
  created_by = row.created_by;
  note = row.note;
  customer_id = row.customer_id;
  now = row.created_at;
}

-- `_to_domain`; the items come in the order that the database gives them.
unfoldable pub to_domain : (List ItemRow → List ItemRow) → DocumentRow → Result Document
unfolding items_of new_document
to_domain ordered row = items_of (ordered row.items) then_with λ items.
    new_document (arguments_of row items) then_with λ d. ok (record d {
      status = row.status;
      date = row.created_at;
      posted_at = row.posted_at;
      cancelled_at = row.cancelled_at;
      cancelled_by = none;
      cancellation_reason = row.cancellation_reason;
      approved_by = row.approved_by;
      transaction_type = row.transaction_type;
      reason_code = row.reason_code;
      requested_by = row.requested_by;
      approved_at = row.approved_at;
      execution_started_at = row.execution_started_at;
      completed_at = row.completed_at;
      assigned_to = row.assigned_to;
    })

pub data DocumentEvent : Type 0 where
  -- Each event has the request's id and the document whose fields make its payload.
  document_uploaded document_posted : Option String → Document → DocumentEvent
  inventory_movement_requested document_approved : Option String → Document → DocumentEvent
  document_cancelled execution_started : Option String → Document → DocumentEvent
  execution_confirmed : Option String → Document → DocumentEvent
  document_completed : Option String → Document → String → DocumentEvent
  -- with the ids of the reservations
  stock_reserved reservation_released : Option String → Document → List ℕ → DocumentEvent

-- What the database decides.
pub record Database : Type 0 where
  -- What a column of type `DateTime`, which keeps no time zone, gives back for a time written to it.
  pub column_time : ℕ → ℕ
  -- The order of a document's items, for which no query asks.
  pub ordered : List ItemRow → List ItemRow

pub record Session : Type 0 where
  -- What the session's queries return.
  pub rows : List DocumentRow
  -- Added and not yet flushed.
  pub new : List DocumentRow
  -- What other sessions see.
  pub committed : List DocumentRow
  -- The counter of `IDGenerator` for documents: the last id given out.
  pub counter : ℕ
  pub published : List DocumentEvent
  -- The publisher: whether it takes an event after those that it was handed; else it raises.
  pub takes : List DocumentEvent → DocumentEvent → Bool
  pub database : Database

abbrev pub Action : Type 0 → Type 0
Action A = Exec Session A

abbrev pub with_id : ℕ → DocumentRow → Bool
with_id id row = row.document_id == id

unique : List DocumentRow → Bool
unfolding all
unique [] = true
unique (x ∷ xs) = all (λ y. not (with_id x.document_id y)) xs && unique xs

-- `session.commit()`: the primary key is the one constraint.
unfoldable pub commit : Action (Unit {0})
unfolding unique
commit s =
    let rows = s.rows ++ s.new in
    if unique rows
    then (ok tt, record s { rows = rows; new = []; committed = rows })
    else (err integrity_error, s)

abbrev max_id : List DocumentRow → ℕ
max_id [] = 0
max_id (row ∷ rows) = max row.document_id (max_id rows)

-- `_sync_id_generator`, which the constructor calls: the next id is one above the largest.
unfoldable pub sync_id_generator : Action (Unit {0})
sync_id_generator = modify (λ s. record s { counter = max_id s.rows })

-- `_ThreadSafeCounter.next_id`
unfoldable pub next_id : Action ℕ
next_id = do modify (λ s. record s { counter = s.counter + 1 }); gets (λ s. s.counter)

unfoldable pub save : Document → Action (Unit {0})
save d = do
  found ← gets (λ s. find (with_id d.document_id) s.rows)
  elim found [
    | none ↦ modify (λ s. record s { new = s.new ++ row_of s.database.column_time d ∷ [] })
    | some _ ↦ modify (λ s. record s {
      rows = update (with_id d.document_id) (λ _. row_of s.database.column_time d) s.rows;
    })
  ]

unfoldable pub get : ℕ → Action (Option Document)
unfolding to_domain
get document_id = do
  found ← gets (λ s. find (with_id document_id) s.rows)
  ordered ← gets (λ s. s.database.ordered)
  elim found [ none ↦ pure none | some row ↦ do d ← lift (to_domain ordered row); pure (some d) ]

unfoldable pub update_status : ℕ → DocumentStatus → Action (Unit {0})
update_status document_id new_status = do
  found ← gets (λ s. find (with_id document_id) s.rows)
  elim found [
    | none ↦ raise document_not_found_error
    | some _ ↦ modify (λ s. record s {
      rows = update (with_id document_id) (λ row. record row { status = new_status }) s.rows;
    })
  ]

-- The row is gone from the flush of the commit that follows; no query stands between.
unfoldable pub delete : ℕ → Action (Unit {0})
delete document_id = do
  found ← gets (λ s. find (with_id document_id) s.rows)
  elim found [
    | none ↦ raise document_not_found_error
    | some _ ↦
        modify (λ s. record s { rows = select (λ row. not (with_id document_id row)) s.rows })
  ]
