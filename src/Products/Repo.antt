-- ===== src/Products/Repo.antt =====
-- `ProductRepo`, infrastructure/repositories/product_repo.py, which the service builds with
-- `auto_commit=False`, over the table of infrastructure/models/product.py. A row has the fields of a
-- product. Queries do not see what was added since the last flush.
use wms_core.Base.{
  ℕ, ◌==◌, pos, leb_ℤ, Bool, not, ◌&&◌, Option, none, some, List, [], ◌∷◌, ◌++◌, find, update,
  select, all, is_some, if◌then◌else◌,
}
use wms_core.Exec.{
  Result, ok, err, Exec, pure, raise, lift, gets, modify, ◌>>=◌, ◌>>◌, key_error, integrity_error,
}
use wms_core.Inventory.Session.{unique}
use wms_core.Products.Product.{Product, new_product}

pub record Session : Type 0 where
  pub rows : List Product
  pub new : List Product
  pub committed : List Product

abbrev pub Action : Type 0 → Type 0
Action A = Exec Session A

abbrev pub with_id : ℕ → Product → Bool
with_id product_id p = p.product_id == product_id

abbrev same_id : Product → Product → Bool
same_id a b = a.product_id == b.product_id

-- The primary key and `check_product_price_positive`.
unfoldable pub constraints : List Product → Bool
unfolding unique all
constraints rows = unique same_id rows && all (λ p. leb_ℤ (pos 0) p.price) rows

-- `session.commit()`
unfoldable pub commit : Action (Unit {0})
commit s =
    let rows = s.rows ++ s.new in
    if constraints rows
    then (ok tt, record { rows = rows; new = []; committed = rows })
    else (err integrity_error, s)

abbrev pub write : Product → Bool → Session → Session
write p found s =
    if found
    then record s { rows = update (with_id p.product_id) (λ _. p) s.rows }
    else record s { new = s.new ++ p ∷ [] }

unfoldable pub save : Product → Action (Unit {0})
unfolding find update
save p = do
  existing ← gets (λ s. find (with_id p.product_id) s.rows)
  modify (write p (is_some existing))

-- `self._to_domain(model) if model else None`
abbrev pub domain_of : Option Product → Action (Option Product)
domain_of none = pure none
domain_of (some row) = lift (new_product row) >>= λ p. pure (some p)

unfoldable pub get : ℕ → Action (Option Product)
unfolding find new_product
get product_id = do model ← gets (λ s. find (with_id product_id) s.rows); domain_of model

unfoldable pub to_domain_all : List Product → Result (List Product)
unfolding new_product
to_domain_all [] = ok []
to_domain_all (row ∷ rows) = also (new_product row) (to_domain_all rows)
  where
    also : Result Product → Result (List Product) → Result (List Product)
    also (ok p) (ok ps) = ok (p ∷ ps)
    also (ok p) (err e) = err e
    also (err e) _ = err e

unfoldable pub get_all : Action (List Product)
unfolding to_domain_all
get_all = do rows ← gets (λ s. s.rows); lift (to_domain_all rows)

unfoldable pub delete : ℕ → Action (Unit {0})
unfolding find select
delete product_id = do
  model ← gets (λ s. find (with_id product_id) s.rows)
  raise_if_missing model
  modify (λ s. record s { rows = select (λ p. not (with_id product_id p)) s.rows })
  where
    raise_if_missing : Option Product → Action (Unit {0})
    raise_if_missing none = raise key_error
    raise_if_missing (some _) = pure tt
