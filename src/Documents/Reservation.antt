-- ===== src/Documents/Reservation.antt =====
-- `reserve_request_stock` and `release_request_reservation` of
-- application/services/document_service.py, which call the inventory service line by line. The
-- inventory is a state of its own with the three calls that the methods make; an `err` of a call is
-- the `grpc.RpcError` that the stub raises.
use wms_core.Base.{
  ℕ, ◌==◌, ℤ, pos, ltb_ℤ, Bool, true, false, not, String, str_eq, str_of, ◌+s◌, Option, none, some,
  List, [], ◌∷◌, ◌++◌, if◌then◌else◌,
}
use wms_core.Exec.{
  Error, Result, ok, err, Exec, pure, raise, raise_if, ◌>>=◌, ◌>>◌, validation_error, type_error,
  invalid_document_status_error,
}
use wms_core.Inventory.Servicer.{ReserveStockRequest, Reply}
use wms_core.Documents.Types.{DocumentType}
use wms_core.Documents.Document.{Document, DocumentProduct, is_posted}
use wms_core.Documents.Repo.{Session, Action, DocumentEvent}
use wms_core.Documents.Service.Create.{publish}
use wms_core.Documents.Service.Lifecycle.{get_document, save_and_commit}

-- A row of `ListReservations`, where 0 stands for no document.
pub record ReservationRow : Type 0 where
  pub id : ℕ
  pub document_id : ℕ

-- The stub of the inventory service.
pub record InventoryStub (I : Type 0) : Type 0 where
  pub reserve_stock : ReserveStockRequest → I → Result Reply × I
  -- reservation_id and released_qty
  pub release_reservation : ℕ → ℤ → I → Result Reply × I
  -- product_id and warehouse_id, for the status RESERVED
  pub list_reservations : ℕ → ℕ → I → Result (List ReservationRow) × I

-- The document service's session beside the inventory.
pub record Both (I : Type 0) : Type 0 where
  pub session : Session
  pub inventory : I

abbrev pub on_session : {I A : Type 0} → Action A → Exec (Both I) A
on_session action b = let (r, s) = action b.session in (r, record b { session = s })

abbrev on_inventory : {I A : Type 0} → Exec I A → Exec (Both I) A
on_inventory action b = let (r, i) = action b.inventory in (r, record b { inventory = i })

-- `except grpc.RpcError`: the caller sees a `ValidationError`.
abbrev pub validated : {I A : Type 0} → (I → Result A × I) → Exec I A
validated call i =
    let (r, i') = call i in (elim r [ ok a ↦ ok a | err _ ↦ err validation_error ], i')

-- `document.created_by or "system"`
abbrev created_by_of : Document → String
created_by_of d = if str_eq d.created_by "" then "system" else d.created_by

abbrev pub request_of : Document → ℕ → DocumentProduct → ReserveStockRequest
request_of d warehouse_id item = record {
  product_id = item.product_id;
  quantity = item.requested_qty;
  warehouse_id = warehouse_id;
  event_id = "doc_" +s str_of d.document_id +s "_product_" +s str_of item.product_id;
  source_type = "sale_document";
  source_id = d.document_id;
  document_id = d.document_id;
  created_by = created_by_of d;
  expires_at = none;
}

-- What the loop over the lines has done when it ends: the lines that it wrote, or the error, the
-- reservations that it was given, and the inventory.
pub record Reserved (I : Type 0) : Type 0 where
  pub lines : Result (List DocumentProduct)
  pub granted : List ℕ
  pub inventory : I

abbrev pub failed : {I : Type 0} → Error → I → Reserved I
failed e i = record { lines = err e; granted = []; inventory = i }

abbrev add_line : DocumentProduct → Result (List DocumentProduct) → Result (List DocumentProduct)
add_line item (err e) = err e
add_line item (ok items) = ok (record item { reserved_qty = item.requested_qty } ∷ items)

abbrev pub grant : {I : Type 0} → DocumentProduct → ℕ → Reserved I → Reserved I
grant item id r = record r { lines = add_line item r.lines; granted = id ∷ r.granted }

abbrev pub is_sale : DocumentType → Bool
is_sale DocumentType.sale = true
is_sale _ = false

module _ {I : Type 0} (stub : InventoryStub I) where
  -- The answer of `ReserveStock` for a line, and the rest of the loop where it is a success.
  abbrev pub answered : DocumentProduct → (I → Reserved I) → Result Reply → I → Reserved I
  answered item rest (err e) i = failed validation_error i
  answered item rest (ok reply) i =
      if reply.success then grant item reply.id (rest i) else failed validation_error i

  -- `int(document.from_warehouse_id)` raises on `None`.
  unfoldable pub reserve_lines : Document → Option ℕ → List DocumentProduct → I → Reserved I
  reserve_lines d place [] i = record { lines = ok []; granted = []; inventory = i }
  reserve_lines d none (item ∷ items) i = failed type_error i
  reserve_lines d (some warehouse_id) (item ∷ items) i =
      let (reply, i') = stub.reserve_stock (request_of d warehouse_id item) i in
      answered item (reserve_lines d (some warehouse_id) items) reply i'

  abbrev pub go_on : (I → I) → Result Reply → I → I
  go_on rest (err e) i = i
  go_on rest (ok reply) i = rest i

  -- The compensation: the first call that raises ends it, and what a reply says is not looked at.
  unfoldable pub release_all : List ℕ → I → I
  release_all [] i = i
  release_all (id ∷ ids) i =
      let (reply, i') = stub.release_reservation id (pos 0) i in go_on (release_all ids) reply i'

  -- `save` and `_commit_if_needed` in the same `try`: what they raise is compensated too.
  abbrev pub save_or_release : Document → List ℕ → Exec (Both I) (Unit {0})
  save_or_release d granted b =
      let (r, s) = save_and_commit d b.session in
      (r, record { session = s; inventory = released r granted b.inventory })
    where
      released : Result (Unit {0}) → List ℕ → I → I
      released (ok _) ids i = i
      released (err e) ids i = release_all ids i

  -- From the end of the loop on.
  abbrev pub settle :
      Option String → Document → List ℕ → Result (List DocumentProduct) → Exec (Both I) Document
  settle request_id d granted (err e) b =
      (err e, record b { inventory = release_all granted b.inventory })
  settle request_id d granted (ok lines) b =
      (do
        let document = record d { items = lines }
        save_or_release document granted
        on_session (publish (DocumentEvent.stock_reserved request_id document granted))
        pure document)
        b

  unfoldable pub reserve_posted : Option String → Document → Exec (Both I) Document
  unfolding reserve_lines release_all save_and_commit
  reserve_posted request_id d b =
      let r = reserve_lines d d.from_warehouse_id d.items b.inventory in
      settle request_id d r.granted r.lines (record b { inventory = r.inventory })

  unfoldable pub reserve_checked : Option String → Document → Exec (Both I) Document
  unfolding reserve_posted
  reserve_checked request_id d = do
    raise_if (not (is_sale d.doc_type)) invalid_document_status_error
    raise_if (not (is_posted d.status)) invalid_document_status_error
    reserve_posted request_id d

  unfoldable pub reserve_request_stock : ℕ → Option String → Exec (Both I) Document
  unfolding get_document reserve_checked
  reserve_request_stock document_id request_id = do
    d ← on_session (get_document document_id)
    reserve_checked request_id d

  -- The loop over the reservations of one line: the ids of those that it released.
  unfoldable pub release_rows : ℕ → List ReservationRow → Exec I (List ℕ)
  release_rows document_id [] = pure []
  release_rows document_id (row ∷ rows) =
      let rest = release_rows document_id rows in
      if row.document_id == document_id
      then (do
        reply ← validated (stub.release_reservation row.id (pos 0))
        raise_if (not reply.success) validation_error
        ids ← rest
        pure (row.id ∷ ids))
      else rest

  -- One line: its reservations are listed and released, and nothing stays reserved. A missing
  -- warehouse fails like any other exception.
  unfoldable pub release_line :
      Document → Option ℕ → DocumentProduct → Exec I (DocumentProduct × List ℕ)
  unfolding release_rows
  release_line d place item =
      if ltb_ℤ (pos 0) item.reserved_qty then release_at place else pure (item, [])
    where
      release_at : Option ℕ → Exec I (DocumentProduct × List ℕ)
      release_at none = raise validation_error
      release_at (some warehouse_id) = do
        rows ← validated (stub.list_reservations item.product_id warehouse_id)
        ids ← release_rows d.document_id rows
        pure (record item { reserved_qty = pos 0 }, ids)

  -- The loop over the lines: the lines with nothing reserved, and the ids.
  unfoldable pub release_lines :
      Document → Option ℕ → List DocumentProduct → Exec I (List DocumentProduct × List ℕ)
  unfolding release_line
  release_lines d place [] = pure ([], [])
  release_lines d place (item ∷ items) = do
    first ← release_line d place item
    rest ← release_lines d place items
    pure (first.0 ∷ rest.0, first.1 ++ rest.1)

  -- `release_request_reservation`; it asks neither for the type nor for the status.
  unfoldable pub release_request_reservation : ℕ → Option String → Exec (Both I) Document
  unfolding get_document release_lines save_and_commit
  release_request_reservation document_id request_id = do
    d ← on_session (get_document document_id)
    done ← on_inventory (release_lines d d.from_warehouse_id d.items)
    let document = record d { items = done.0 }
    on_session (save_and_commit document)
    on_session (publish (DocumentEvent.reservation_released request_id document done.1))
    pure document
