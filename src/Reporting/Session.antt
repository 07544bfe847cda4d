-- ===== src/Reporting/Session.antt =====
-- A database session of the reporting service, shared/core/database.py. Queries do not flush, so
-- they see the rows of the database with what was written to them, and not the objects that were
-- added. The session flushes once, in the `commit` of `_ingest`.
--
-- A JSON column is written by a flush only where its value has changed: the session keeps the value
-- that was there before the first assignment and compares. `_update_matrix` assigns a shallow copy
-- of the mapping, whose cells are the objects of the value that the session kept.
use wms_core.Base.{
  ℤ, pos, ◌==◌, eqb_ℤ, Bool, true, false, ◌&&◌, str_eq, Option, none, some, is_some, List, [], ◌∷◌,
  ◌++◌, map, all, if◌then◌else◌,
}
use wms_core.Exec.{ok, err, Exec, integrity_error}
use wms_core.Inventory.Session.{unique}
use wms_core.Reporting.Rows.{
  Cell, InventorySummary, DocumentSummary, SalesSummary, WarehouseActivitySummary, ReadModelEvent,
  Db, no_rows,
}

-- A row of `inventory_summary` that the session holds: the object, the mapping that its attribute
-- `warehouse_matrix` held when it was read, and the text in the database.
pub record Tracked : Type 0 where
  pub row : InventorySummary
  pub before : List Cell
  pub stored : List Cell

pub record Session : Type 0 where
  -- What the session's queries return.
  pub inventory : List Tracked
  pub documents : List DocumentSummary
  pub sales : List SalesSummary
  pub warehouses : List WarehouseActivitySummary
  pub events : List ReadModelEvent
  -- `session.new`
  pub new : Db
  -- What other sessions see.
  pub committed : Db

abbrev pub Action : Type 0 → Type 0
Action A = Exec Session A

abbrev pub track : InventorySummary → Tracked
track row = record { row = row; before = row.warehouse_matrix; stored = row.warehouse_matrix }

-- `SessionLocal()`
abbrev pub open_session : Db → Session
open_session db = record {
  inventory = map track db.inventory;
  documents = db.documents;
  sales = db.sales;
  warehouses = db.warehouses;
  events = db.events;
  new = no_rows;
  committed = db;
}

abbrev cell_eqb : Cell → Cell → Bool
cell_eqb a b =
    a.warehouse_id == b.warehouse_id
    && eqb_ℤ a.physical_qty b.physical_qty
    && eqb_ℤ a.reserved_qty b.reserved_qty
    && eqb_ℤ a.incoming_qty b.incoming_qty
    && eqb_ℤ a.in_transit_qty b.in_transit_qty
    && eqb_ℤ a.available_qty b.available_qty

-- `a == b` on mappings where keys are only added at the end.
unfoldable pub matrix_eqb : List Cell → List Cell → Bool
matrix_eqb [] [] = true
matrix_eqb [] (y ∷ ys) = false
matrix_eqb (x ∷ xs) [] = false
matrix_eqb (x ∷ xs) (y ∷ ys) = cell_eqb x y && matrix_eqb xs ys

-- The row that an UPDATE leaves: the mapping is written where it is not what it was before.
unfoldable pub flush_row : Tracked → InventorySummary
unfolding matrix_eqb
flush_row t =
    if matrix_eqb t.before t.row.warehouse_matrix
    then record t.row { warehouse_matrix = t.stored }
    else t.row

-- A column that is `None` takes its default on an INSERT.
abbrev default_zero : Option ℤ → Option ℤ
default_zero none = some (pos 0)
default_zero (some v) = some v

abbrev pub insert_document : DocumentSummary → DocumentSummary
insert_document d = record d {
  total_quantity = default_zero d.total_quantity;
  total_value = default_zero d.total_value;
}

abbrev pub insert_sale : SalesSummary → SalesSummary
insert_sale r = record r {
  total_quantity = default_zero r.total_quantity;
  total_value = default_zero r.total_value;
}

-- The tables after the UPDATEs and the INSERTs of a flush.
unfoldable pub flushed : Session → Db
unfolding flush_row
flushed s = record {
  inventory = map flush_row s.inventory ++ s.new.inventory;
  documents = s.documents ++ map insert_document s.new.documents;
  sales = s.sales ++ map insert_sale s.new.sales;
  warehouses = s.warehouses ++ s.new.warehouses;
  events = s.events ++ s.new.events;
}

-- NOT NULL columns.
abbrev document_filled : DocumentSummary → Bool
document_filled d = is_some d.total_quantity && is_some d.total_value

abbrev sale_filled : SalesSummary → Bool
sale_filled r = is_some r.total_quantity && is_some r.total_value

-- Primary keys, the unique `event_id`, and the NOT NULL columns.
unfoldable pub constraints : Db → Bool
unfolding unique all
constraints db =
    unique (λ a b. a.product_id == b.product_id) db.inventory
    && unique (λ a b. a.document_id == b.document_id) db.documents
    && all document_filled db.documents
    && unique (λ a b. a.document_id == b.document_id) db.sales
    && all sale_filled db.sales
    && unique (λ a b. a.warehouse_id == b.warehouse_id) db.warehouses
    && unique (λ a b. str_eq a.event_id b.event_id) db.events

-- `db.commit()`
unfoldable pub commit : Action (Unit {0})
commit s =
    let after = flushed s in
    if constraints after
    then (ok tt, record (open_session after) { committed = after })
    else (err integrity_error, s)
