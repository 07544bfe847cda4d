-- ===== src/Customers/Consumer.antt =====
-- `CustomerPurchaseConsumer.handle`, customer_service/event_consumer.py: a sale that is uploaded is a
-- purchase of its customer.
use wms_core.Base.{
  ℕ, ℤ, pos, ◌+ℤ◌, ◌==◌, Bool, true, false, not, ◌||◌, ◌&&◌, is_some, List, [], ◌∷◌, find,
  if◌then◌else◌,
}
use wms_core.Exec.{Result, ok, err, pure, gets, ◌>>=◌, type_error}
use wms_core.Reporting.Rows.{Field, get_or, PayloadItem, EventType, Envelope}
use wms_core.Reporting.Project.{times, text_or, upper_is}
use wms_core.Customers.Rows.{Db, Purchase, Action, open_session}
use wms_core.Customers.Repo.{record_purchase, list_purchases}

-- `int(i.get(key, 0))`
abbrev number : Field ℤ → Result ℤ
number Field.missing = ok (pos 0)
number Field.null = err type_error
number (Field.present v) = ok v

abbrev plus_line : Result ℤ → Result ℤ → Result ℤ → Result ℤ
plus_line (ok quantity) (ok price) (ok rest) = ok (times quantity price +ℤ rest)
plus_line (ok quantity) (ok price) (err e) = err e
plus_line (ok quantity) (err e) _ = err e
plus_line (err e) _ _ = err e

-- The sum over the lines, which is made before the session is opened.
unfoldable pub value_of : List PayloadItem → Result ℤ
value_of [] = ok (pos 0)
value_of (item ∷ items) = plus_line (number item.quantity) (number item.unit_price) (value_of items)

abbrev pub of_document : ℕ → Purchase → Bool
of_document document_id p = p.document_id == document_id

-- What is done in the session.
unfoldable pub record_once : ℕ → ℕ → ℤ → Action (Unit {0})
unfolding list_purchases record_purchase find
record_once customer_id document_id total_value = do
  existing ← gets (λ s. find (of_document document_id) (list_purchases customer_id s))
  if is_some existing then pure tt else record_purchase true customer_id document_id total_value

-- In the `try` block, whose exceptions are logged; the session is closed in any case.
unfoldable pub record_sale : ℕ → ℕ → ℤ → Db → Db
unfolding record_once
record_sale customer_id document_id total_value db =
    (record_once customer_id document_id total_value (open_session db)).1.committed

abbrev pub is_uploaded : EventType → Bool
is_uploaded EventType.document_uploaded = true
is_uploaded _ = false

-- The message is a sale with a customer and an id.
unfoldable pub is_sale : Envelope → Bool
unfolding upper_is
is_sale e =
    is_uploaded e.type
    && upper_is (text_or "" e.payload.doc_type) "SALE"
    && not (get_or 0 e.payload.customer_id == 0 || get_or 0 e.payload.document_id == 0)

-- From the sum on; where it raises, the message fails.
abbrev pub handle_sale : Db → Envelope → Result ℤ → Result (Unit {0}) × Db
handle_sale db e (err x) = (err x, db)
handle_sale db e (ok value) =
    (ok tt, record_sale (get_or 0 e.payload.customer_id) (get_or 0 e.payload.document_id) value db)

unfoldable pub handle : Db → Envelope → Result (Unit {0}) × Db
unfolding is_sale value_of record_sale
handle db e =
    if is_sale e then handle_sale db e (value_of (get_or [] e.payload.items)) else (ok tt, db)
