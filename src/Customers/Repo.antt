-- ===== src/Customers/Repo.antt =====
-- `CustomerRepo`, modules/customers/infrastructure/repositories/customer_repo.py, with its
-- `auto_commit`, and `CustomerService`, application/services/customer_service.py, which passes its
-- calls on. A refresh after a commit reads the row that was written.
use wms_core.Base.{
  ℕ, ℤ, ◌+ℤ◌, ◌==◌, Bool, String, Option, none, some, is_some, List, [], ◌∷◌, ◌++◌, length, find,
  update, select, sum_by, if◌then◌else◌,
}
use wms_core.Exec.{pure, gets, modify, ◌>>=◌, ◌>>◌}
use wms_core.Customers.Rows.{Customer, Purchase, Session, Action, with_id, commit}

-- The keys of a dictionary of changes that are not `None`.
pub record CustomerData : Type 0 where
  pub name : Option String
  pub email : Option String
  pub phone : Option String
  pub address : Option String

abbrev or_text : Option String → String → String
or_text none old = old
or_text (some text) old = text

abbrev or_some : Option String → Option String → Option String
or_some none old = old
or_some (some text) old = some text

abbrev changed : CustomerData → Customer → Customer
changed d c = record c {
  name = or_text d.name c.name;
  email = or_some d.email c.email;
  phone = or_some d.phone c.phone;
  address = or_some d.address c.address;
}

abbrev pub owing : ℤ → Customer → Customer
owing delta c = record c { debt_balance = c.debt_balance +ℤ delta }

abbrev pub write : ℕ → (Customer → Customer) → Session → Session
write customer_id f s = record s {
  rows = record s.rows { customers = update (with_id customer_id) f s.rows.customers };
}

abbrev pub add_purchase : Purchase → Session → Session
add_purchase p s = record s { new = record s.new { purchases = s.new.purchases ++ p ∷ [] } }

abbrev add_customer : Customer → Session → Session
add_customer c s = record s { new = record s.new { customers = s.new.customers ++ c ∷ [] } }

module _ (auto_commit : Bool) where
  unfoldable pub commit_if_auto : Action (Unit {0})
  unfolding commit
  commit_if_auto = if auto_commit then commit else pure tt

  unfoldable pub create : Customer → Action Customer
  unfolding commit_if_auto
  create c = do modify (add_customer c); commit_if_auto; pure c

  -- The writes to a customer that was found; without one there are none.
  abbrev pub write_found : ℕ → (Customer → Customer) → Bool → Action (Unit {0})
  write_found customer_id f found =
      if found then modify (write customer_id f) >> commit_if_auto else pure tt

  unfoldable pub update_debt : ℕ → ℤ → Action (Unit {0})
  unfolding commit_if_auto find update
  update_debt customer_id delta = do
    customer ← gets (λ s. find (with_id customer_id) s.rows.customers)
    write_found customer_id (owing delta) (is_some customer)

  unfoldable pub record_purchase : ℕ → ℕ → ℤ → Action (Unit {0})
  unfolding commit_if_auto update_debt
  record_purchase customer_id document_id total_value = do
    modify (
        add_purchase (record {
          customer_id = customer_id;
          document_id = document_id;
          total_value = total_value;
        }))
    update_debt customer_id total_value
    commit_if_auto

  unfoldable pub update_customer : ℕ → CustomerData → Action (Unit {0})
  unfolding commit_if_auto find update
  update_customer customer_id d = do
    customer ← gets (λ s. find (with_id customer_id) s.rows.customers)
    write_found customer_id (changed d) (is_some customer)

abbrev pub of_customer : ℕ → Purchase → Bool
of_customer customer_id p = p.customer_id == customer_id

unfoldable pub list_purchases : ℕ → Session → List Purchase
unfolding select
list_purchases customer_id s = select (of_customer customer_id) s.rows.purchases

-- `_purchase_stats`
unfoldable pub purchase_stats : ℕ → Session → ℕ × ℤ
unfolding list_purchases sum_by
purchase_stats customer_id s = (
  length (list_purchases customer_id s),
  sum_by (λ p. p.total_value) (list_purchases customer_id s),
)
