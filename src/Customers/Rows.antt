-- ===== src/Customers/Rows.antt =====
-- The tables of modules/customers/infrastructure/models/*.py and a session on them. Amounts are whole
-- numbers of the smallest unit; the time of a row is left out.
use wms_core.Base.{
  ℕ, ◌==◌, ℤ, Bool, ◌&&◌, String, Option, is_some, List, [], ◌++◌, find, all, if◌then◌else◌,
}
use wms_core.Exec.{ok, err, Exec, integrity_error}
use wms_core.Inventory.Session.{unique}

-- `CustomerModel`
pub record Customer : Type 0 where
  pub customer_id : ℕ
  pub name : String
  pub email : Option String
  pub phone : Option String
  pub address : Option String
  pub debt_balance : ℤ

-- `CustomerPurchaseModel`; its own `id` is never read.
pub record Purchase : Type 0 where
  pub customer_id : ℕ
  pub document_id : ℕ
  pub total_value : ℤ

pub record Db : Type 0 where
  pub customers : List Customer
  pub purchases : List Purchase

abbrev pub no_rows : Db
no_rows = record { customers = []; purchases = [] }

pub record Session : Type 0 where
  -- What queries return: the rows with what was written to them.
  pub rows : Db
  -- Added and not yet flushed.
  pub new : Db
  -- What other sessions see.
  pub committed : Db

abbrev pub Action : Type 0 → Type 0
Action A = Exec Session A

abbrev pub open_session : Db → Session
open_session db = record { rows = db; new = no_rows; committed = db }

abbrev pub with_id : ℕ → Customer → Bool
with_id customer_id c = c.customer_id == customer_id

-- The foreign key of a purchase.
abbrev has_customer : List Customer → Purchase → Bool
has_customer customers p = is_some (find (with_id p.customer_id) customers)

-- The primary key of the customers and the foreign key of the purchases.
unfoldable pub constraints : Db → Bool
unfolding unique all find
constraints db =
    unique (λ a b. a.customer_id == b.customer_id) db.customers
    && all (has_customer db.customers) db.purchases

abbrev pub merge : Db → Db → Db
merge a b = record {
  customers = a.customers ++ b.customers;
  purchases = a.purchases ++ b.purchases;
}

-- `session.commit()`
unfoldable pub commit : Action (Unit {0})
commit s =
    let after = merge s.rows s.new in
    if constraints after then (ok tt, open_session after) else (err integrity_error, s)
