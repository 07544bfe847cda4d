-- ===== src/Inventory/Servicer.antt =====
-- The handlers that change the stock: `ReserveStock`, `ReleaseReservation` and
-- `ConfirmInventoryTransaction` of inventory_service/grpc_servicer.py and the consumer of
-- inventory_service/event_consumer.py, under Services/inventory-service/src. Each opens a session of
-- its own, answers an exception with a failure, and closes the session, which drops what was not
-- committed; the consumer gives no answer, and a failure stands for the exception that leaves it. The
-- event id of its message is in the movement already. Requests come one after the other.
pub mod Soundness
pub mod Atomicity
pub mod Failure
pub mod Idempotence
pub mod Movements
use wms_core.Base.{
  ℕ, ◌==◌, ℤ, pos, eqb_ℤ, Bool, true, false, String, str_eq, Option, none, some, List, [], ◌∷◌,
  ◌++◌, if◌then◌else◌,
}
use wms_core.Exec.{Result, ok, err, ◌>>=◌, ◌>>◌, pure}
use wms_core.Inventory.Rows.{Db, Movement, InventoryEvent}
use wms_core.Inventory.Session.{Session, Action, no_rows, publish}
use wms_core.Inventory.Service.Reserve.{StockRequest, reserve_stock, release_reservation}
use wms_core.Inventory.Service.Move.{apply_document_movement}
use wms_core.Inventory.Service.Confirm.{Confirmation, confirm_inventory_transaction}

-- What outlives a request: the database, the events published so far and their publisher.
pub record Store : Type 0 where
  pub db : Db
  pub events : List InventoryEvent
  pub takes : List InventoryEvent → InventoryEvent → Bool

abbrev pub open_session : Store → Session
open_session st = record {
  rows = st.db;
  new = no_rows;
  committed = st.db;
  published = st.events;
  takes = st.takes;
}

abbrev pub close_session : Session → Store
close_session s = record { db = s.committed; events = s.published; takes = s.takes }

-- The fields of `ReserveStockRequest`, where 0 and "" stand for what is left out.
pub record ReserveStockRequest : Type 0 where
  pub product_id : ℕ
  pub quantity : ℤ
  pub warehouse_id : ℕ
  pub event_id : String
  pub source_type : String
  pub source_id : ℕ
  pub document_id : ℕ
  pub created_by : String
  pub expires_at : Option ℕ

abbrev some_id : ℕ → Option ℕ
some_id id = if id == 0 then none else some id

abbrev pub some_text : String → Option String
some_text text = if str_eq text "" then none else some text

abbrev text_or : String → String → String
text_or text default = if str_eq text "" then default else text

abbrev pub stock_request : ReserveStockRequest → StockRequest
stock_request r = record {
  product_id = r.product_id;
  quantity = r.quantity;
  warehouse_id = some_id r.warehouse_id;
  event_id = some_text r.event_id;
  source_type = text_or r.source_type "manual";
  source_id = some_id r.source_id;
  document_id = some_id r.document_id;
  created_by = some_text r.created_by;
  expires_at = r.expires_at;
}

-- "treat 0 as release all"
abbrev pub released : ℤ → Option ℤ
released quantity = if eqb_ℤ quantity (pos 0) then none else some quantity

pub data Request : Type 0 where
  reserve : ReserveStockRequest → Request
  release : ℕ → ℤ → Request
  confirm : Confirmation → Request
  movement : Movement → Request

pub record Reply : Type 0 where
  pub success : Bool
  pub id : ℕ

abbrev reply_of : Result ℕ → Reply
reply_of (ok id) = record { success = true; id = id }
reply_of (err e) = record { success = false; id = 0 }

module _ (next_id : List ℕ → ℕ) where
  -- What a handler runs in its session, with the id that it answers.
  unfoldable pub run : Request → Action ℕ
  run (Request.reserve r) = reserve_stock next_id (stock_request r)
  run (Request.release id quantity) =
      release_reservation next_id id (released quantity) none
      >> (publish (InventoryEvent.release_requested id (released quantity)) >> pure 0)
  run (Request.confirm c) = confirm_inventory_transaction next_id c
  run (Request.movement m) = apply_document_movement next_id m >> pure 0

  unfoldable pub handle : Request → Store → Reply × Store
  handle request st = let (r, s) = run request (open_session st) in (reply_of r, close_session s)

  unfoldable pub serve : List Request → Store → Store
  unfolding handle
  serve [] st = st
  serve (request ∷ rest) st = serve rest (handle request st).1
