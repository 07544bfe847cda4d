-- ===== src/Customers/Record.antt =====
-- What the handling of a sale leaves in the tables: nothing new, or the purchase with its debt.
use wms_core.Base.{
  ℕ, ℤ, ◌≡◌, refl, ap, Bool, true, false, ◌⊎◌, inl, inr, none, some, is_some, List, [], ◌∷◌, ◌++◌,
  append-nil, find, update, select, all, Bool-cases, Option-cases, arith,
}
use wms_core.Exec.{◌>>=◌}
use wms_core.Customers.Rows.{Customer, Purchase, Db, with_id, constraints, merge, commit, no_rows}
use wms_core.Customers.Repo.{
  owing, update_debt, record_purchase, of_customer, list_purchases, commit_if_auto,
}
use wms_core.Customers.Consumer.{of_document, record_once, record_sale}

abbrev pub purchase : ℕ → ℕ → ℤ → Purchase
purchase customer_id document_id total_value = record {
  customer_id = customer_id;
  document_id = document_id;
  total_value = total_value;
}

-- The tables with the purchase and its debt.
abbrev pub recorded : ℕ → ℕ → ℤ → Db → Db
recorded c d v db = record {
  customers = update (with_id c) (owing v) db.customers;
  purchases = db.purchases ++ purchase c d v ∷ [];
}

abbrev pub is_recorded : ℕ → ℕ → Db → Bool
is_recorded c d db = is_some (find (of_document d) (select (of_customer c) db.purchases))

merge-no_rows : (db : Db) → merge db no_rows ≡ db
merge-no_rows db = rw (append-nil db.customers, append-nil db.purchases) refl

all_but_last :
    (p : Purchase → Bool) (xs : List Purchase) (x : Purchase)
    → p x ≡ false
    → all p (xs ++ x ∷ []) ≡ false
unfolding all
all_but_last p [] x h = rw h refl
all_but_last p (y ∷ xs) x h = ground (arith, all_but_last p xs x h)

module _ (c d : ℕ) (v : ℤ) (db : Db) where
  -- A purchase of nobody is refused.
  no_customer :
      find (with_id c) db.customers ≡ none
      → constraints (merge db (record { customers = []; purchases = purchase c d v ∷ [] })) ≡ false
  unfolding constraints
  no_customer h = rw (append-nil db.customers) (
      rw
        (all_but_last (λ p. is_some (find (with_id p.customer_id) db.customers)) db.purchases
          (purchase c d v) (ap is_some h))
        (ground arith))

  pub record_sale-cases :
      (record_sale c d v db ≡ db)
      ⊎ ((is_recorded c d db ≡ false)
          × ((r : Customer) × (find (with_id c) db.customers ≡ some r))
          × (record_sale c d v db ≡ recorded c d v db))
  unfolding record_sale record_once list_purchases record_purchase update_debt commit_if_auto commit
      ◌>>=◌
  record_sale-cases = elim (Bool-cases (is_recorded c d db)) [
    | inl u ↦ inl (rw u refl)
    | inr u ↦ elim (Option-cases (find (with_id c) db.customers)) [
      | inl none_found ↦ inl (rw (u, none_found, no_customer none_found) refl)
      | inr (r, found) ↦
          let customers = append-nil (update (with_id c) (owing v) db.customers) in
          let again = append-nil (db.purchases ++ purchase c d v ∷ []) in
          elim (Bool-cases (constraints (recorded c d v db))) [
            | inr bad ↦ inl (rw (u, found, customers, bad) refl)
            | inl good ↦
                inr (u, (r, found), rw (u, found, customers, good, customers, again, good) refl)
          ]
    ]
  ]

  pub record_sale-known : is_recorded c d db ≡ true → record_sale c d v db ≡ db
  unfolding record_sale record_once list_purchases ◌>>=◌
  record_sale-known u = rw u refl
