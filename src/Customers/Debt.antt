-- ===== src/Customers/Debt.antt =====
-- The debt of a customer against the purchases that were recorded for it.
use wms_core.Base.{
  ℕ, ℤ, pos, ◌+ℤ◌, ◌==◌, ==_iff, ==_self, ◌≡◌, refl, ap, ◌∙◌, Bool, true, inl, inr, Option, none,
  some, List, [], ◌∷◌, ◌++◌, find, select, sum_by, Bool-cases, arith, int_laws, if◌then◌else◌,
}
use wms_core.Base.Tables.{
  find-update_self, find-update_ne, sum_by-append, is_some-find-append_right,
}
use mathlib.Core.Path.{subst}
use wms_core.Exec.{Result, ok, err}
use wms_core.Reporting.Rows.{get_or, Envelope}
use wms_core.Customers.Rows.{Customer, Purchase, Db, with_id}
use wms_core.Customers.Repo.{owing, of_customer}
use wms_core.Customers.Record.{
  purchase, recorded, is_recorded, record_sale-cases, record_sale-known,
}
use wms_core.Customers.Consumer.{of_document, record_sale, value_of, is_sale, handle_sale, handle}

select-append :
    (p : Purchase → Bool) (xs ys : List Purchase) → select p (xs ++ ys) ≡ select p xs ++ select p ys
unfolding select
select-append p [] ys = refl
select-append p (x ∷ xs) ys = elim (Bool-cases (p x)) [
  | inl e ↦ rw e (ap (λ r. x ∷ r) (select-append p xs ys))
  | inr e ↦ rw e (select-append p xs ys)
]

recorded_is_known : (c d : ℕ) (v : ℤ) (db : Db) → is_recorded c d (recorded c d v db) ≡ true
unfolding select find
recorded_is_known c d v db = rw (select-append (of_customer c) db.purchases (purchase c d v ∷ [])) (
    is_some-find-append_right (of_document d) (select (of_customer c) db.purchases) _
      (rw (==_self c, ==_self d) refl))

handle_sale-again :
    (c d : ℕ) (v : ℤ) (db : Db) → record_sale c d v (record_sale c d v db) ≡ record_sale c d v db
handle_sale-again c d v db = elim (record_sale-cases c d v db) [
  | inl same ↦ rw (same, same) refl
  | inr (new, found, e) ↦
      rw e (record_sale-known c d v (recorded c d v db) (recorded_is_known c d v db))
]

abbrev pub debt : Option Customer → ℤ
debt none = pos 0
debt (some c) = c.debt_balance

-- What a customer owes, and what its purchases come to.
abbrev pub owed : ℕ → Db → ℤ
owed c db = debt (find (with_id c) db.customers)

abbrev pub bought : ℕ → Db → ℤ
bought c db = sum_by (λ p. p.total_value) (select (of_customer c) db.purchases)

bought-recorded :
    (x c d : ℕ) (v : ℤ) (db : Db)
    → bought x (recorded c d v db) ≡ bought x db +ℤ (if c == x then v else pos 0)
unfolding select sum_by
bought-recorded x c d v db =
    rw
      (
        select-append (of_customer x) db.purchases (purchase c d v ∷ []),
        sum_by-append (λ p. p.total_value) (select (of_customer x) db.purchases)
            (select (of_customer x) (purchase c d v ∷ [])),
      )
      (elim (Bool-cases (c == x)) [ inl e ↦ rw e (omega int_laws) | inr e ↦ rw e refl ])

owed-recorded :
    (x c d : ℕ) (v : ℤ) (db : Db) (r : Customer)
    → find (with_id c) db.customers ≡ some r
    → owed x (recorded c d v db) ≡ owed x db +ℤ (if c == x then v else pos 0)
owed-recorded x c d v db r found = elim (Bool-cases (c == x)) [
  | inl e ↦
      subst (λ y. owed y (recorded c d v db) ≡ owed y db +ℤ (if c == x then v else pos 0))
        ((==_iff c x).0 e)
        (rw (find-update_self (with_id c) (owing v) db.customers (λ y. refl), found, e) refl)
  | inr e ↦
      rw
        (
          find-update_ne (with_id c) (with_id x) (owing v) db.customers (λ y. refl)
              (λ y h. ground (arith, h, e)),
          e,
        )
        (omega int_laws)
]

record_sale-balance :
    (x c d : ℕ) (v : ℤ) (db : Db)
    → owed x (record_sale c d v db) +ℤ bought x db ≡ owed x db +ℤ bought x (record_sale c d v db)
record_sale-balance x c d v db = elim (record_sale-cases c d v db) [
  | inl same ↦ rw same refl
  | inr (new, (r, found), e) ↦
      rw e (rw (owed-recorded x c d v db r found, bought-recorded x c d v db) (omega int_laws))
]

module _ (e : Envelope) where
  sale_again :
      (total : Result ℤ) (db : Db)
      → (handle_sale db e total).0 ≡ ok tt
      → handle_sale (handle_sale db e total).1 e total ≡ handle_sale db e total
  sale_again (err x) db h = refl
  sale_again (ok v) db h =
      ap (λ t. (ok tt, t))
        (handle_sale-again (get_or 0 e.payload.customer_id) (get_or 0 e.payload.document_id) v db)

  -- A message that is delivered again after it was taken is taken again and changes nothing: no
  -- purchase is recorded twice and no debt is counted twice.
  pub redelivered_sale_is_ignored :
      (db db' : Db) → handle db e ≡ (ok tt, db') → handle db' e ≡ (ok tt, db')
  unfolding handle
  redelivered_sale_is_ignored db db' h = elim (Bool-cases (is_sale e)) [
    | inr u ↦ rw u refl
    | inl u ↦ rw u (
        subst (λ t. handle_sale t e total ≡ (ok tt, t)) (ap (λ r. r.1) (rw u at h))
          (sale_again total db (ap (λ r. r.0) (rw u at h)) ∙ taken (rw u at h)))
  ]
    where
      total : Result ℤ
      total = value_of (get_or [] e.payload.items)

      taken :
          handle_sale db e total ≡ (ok tt, db')
          → handle_sale db e total ≡ (ok tt, (handle_sale db e total).1)
      taken k = ap (λ r. (r, (handle_sale db e total).1)) (ap (λ r. r.0) k)

  sale_balance :
      (x : ℕ) (total : Result ℤ) (db : Db)
      → owed x (handle_sale db e total).1 +ℤ bought x db
        ≡ owed x db +ℤ bought x (handle_sale db e total).1
  sale_balance x (err _) db = refl
  sale_balance x (ok v) db =
      record_sale-balance x (get_or 0 e.payload.customer_id) (get_or 0 e.payload.document_id) v db

  -- Whatever message is handled, with whatever outcome, the debt of every customer rises by as much as
  -- its recorded purchases.
  pub debt_follows_purchases :
      (x : ℕ) (db : Db)
      → owed x (handle db e).1 +ℤ bought x db ≡ owed x db +ℤ bought x (handle db e).1
  unfolding handle
  debt_follows_purchases x db = elim (Bool-cases (is_sale e)) [
    | inr u ↦ rw u refl
    | inl u ↦ rw u (sale_balance x (value_of (get_or [] e.payload.items)) db)
  ]
