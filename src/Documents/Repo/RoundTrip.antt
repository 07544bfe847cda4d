-- ===== src/Documents/Repo/RoundTrip.antt =====
-- A document that is saved and read back.
use wms_core.Base.{ℕ, leb, pos, ltb_ℤ, leb_ℤ, ◌≡◌, refl, false, is_blank, none, List, map, All}
use mathlib.Core.Option
use mathlib.Core.List.{Permᴰ}
use mathlib.Core.List.Permᴰ
use wms_core.Documents.Results
use wms_core.Exec.{ok}
use wms_core.Documents.Document.{Document, DocumentProduct, new_document, validate_warehouses}
use wms_core.Documents.Repo.{ItemRow, item_row_of, row_of, items_of, to_domain}

-- What the constructor of a line asks.
pub record IsLine (item : DocumentProduct) : Type 0 where
  pub has_id : leb item.product_id 0 ≡ false
  pub has_quantity : leb_ℤ item.quantity (pos 0) ≡ false
  pub has_price : ltb_ℤ item.unit_price (pos 0) ≡ false

-- What the constructors of a document and its lines ask.
pub record IsStorable (d : Document) : Type 0 where
  pub has_id : leb d.document_id 0 ≡ false
  pub has_warehouses : validate_warehouses d.doc_type d.from_warehouse_id d.to_warehouse_id ≡ ok tt
  pub has_author : is_blank d.created_by ≡ false
  pub has_lines : All IsLine d.items

-- A document as it comes back: its times went through their columns.
abbrev pub timed : (ℕ → ℕ) → Document → Document
timed column_time d = record d {
  date = column_time d.date;
  posted_at = Option.map column_time d.posted_at;
  cancelled_at = Option.map column_time d.cancelled_at;
  approved_at = Option.map column_time d.approved_at;
  execution_started_at = Option.map column_time d.execution_started_at;
  completed_at = Option.map column_time d.completed_at;
}

-- A document that meets the tests of its constructors comes back from its row as it was, with its
-- times as their columns give them and its lines as the database orders them, and without the one
-- who cancelled it, whom no column keeps.
pub to_domain-row_of :
    (f : ℕ → ℕ) (ordered : List ItemRow → List ItemRow) (d : Document)
    (items : List DocumentProduct)
    → IsStorable d
    → items_of (ordered (map item_row_of d.items)) ≡ ok items
    → to_domain ordered (row_of f d)
      ≡ ok (record (timed f d) { items = items; cancelled_by = none })
unfolding to_domain new_document
to_domain-row_of f ordered d items h read =
    rw read (rw h.has_id (rw h.has_warehouses (rw h.has_author refl)))
