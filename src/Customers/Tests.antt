-- ===== src/Customers/Tests.antt =====
-- The customer service on concrete data.
use wms_core.Base.{pos, ◌+ℤ◌, ◌≡◌, refl, none, [], ◌∷◌, find, update, select, all, negate}
use wms_core.Exec.{ok, ◌>>=◌}
use wms_core.Inventory.Session.{unique}
use wms_core.Reporting.Rows.{Field, no_payload, EventType, Envelope}
use wms_core.Reporting.Project.{upper_is}
use wms_core.Customers.Rows.{Db, constraints, commit}
use wms_core.Customers.Repo.{commit_if_auto, update_debt, record_purchase, list_purchases}
use wms_core.Customers.Consumer.{value_of, record_once, record_sale, is_sale, handle}
use wms_core.Customers.Debt.{owed, bought, redelivered_sale_is_ignored, debt_follows_purchases}

-- Two pieces at 150 for customer 3.
abbrev sale : Envelope
sale = record {
  event_id = "document-5";
  type = EventType.document_uploaded;
  source = "documents-service";
  occurred_at = "2025-01-01T00:00:00Z";
  payload = record no_payload {
    doc_type = Field.present "SALE";
    document_id = Field.present 5;
    customer_id = Field.present 3;
    items = Field.present (
        record {
          product_id = Field.present 7;
          quantity = Field.present (pos 2);
          unit_price = Field.present (pos 150);
        }
        ∷ []);
  };
}

abbrev customers : Db
customers = record {
  customers =
      record {
        customer_id = 3;
        name = "Cy";
        email = none;
        phone = none;
        address = none;
        debt_balance = pos 40;
      }
      ∷ [];
  purchases = [];
}

abbrev charged : Db
charged = (handle customers sale).1

sale_is_taken : handle customers sale ≡ (ok tt, charged)
unfolding handle is_sale upper_is value_of record_sale
sale_is_taken = refl

redelivered_sale_is_ignored_example : handle charged sale ≡ (ok tt, charged)
redelivered_sale_is_ignored_example =
    redelivered_sale_is_ignored sale customers charged sale_is_taken

-- The customer owes the sale beside what it owed before.
charged_debt : owed 3 charged ≡ pos 340
unfolding handle is_sale upper_is value_of record_sale record_once list_purchases record_purchase
    update_debt commit_if_auto commit constraints unique all find update select ◌+ℤ◌ negate ◌>>=◌
charged_debt = refl

debt_follows_purchases_example :
    owed 3 charged +ℤ bought 3 customers ≡ owed 3 customers +ℤ bought 3 charged
debt_follows_purchases_example = debt_follows_purchases sale 3 customers
