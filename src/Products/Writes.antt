-- ===== src/Products/Writes.antt =====
-- The methods of the product service as changes of the catalog.
use wms_core.Base.{
  ℕ, ◌≡◌, refl, sym, ap, ◌∙◌, is_some, List, [], ◌∷◌, ◌++◌, append-nil, find, update, All,
  Option-cases, inl, inr, arith,
}
use wms_core.Base.Tables.{All-append, All-update, All-find}
use mathlib.Core.Path.{subst}
use wms_core.Exec.{Result, ok, pure, lift, ◌>>=◌, ◌>>◌}
use wms_core.Exec.Ensures.{both_steps}
use wms_core.Products.Product.{
  Product, new_product, validate_name, validate_price, validate_product_id,
}
use wms_core.Products.Repo.{Session, with_id, commit, write, save, get}
use wms_core.Products.Catalog.{IsValid, IsClean, Catalog, catalog, put, put-found, put-new}

-- What a method does: the catalog after it, from a clean session to a clean one.
pub record Turns (c : Catalog) (t : Session) : Type 0 where
  pub lookup : (k : ℕ) → catalog t k ≡ c k
  pub clean : IsClean t

pub commit_lands :
    (s t : Session)
    → commit s ≡ (ok tt, t)
    → t ≡ record { rows = s.rows ++ s.new; new = []; committed = s.rows ++ s.new }
unfolding commit
commit_lands s t h = ground (arith, ap (λ r. r.0) h, ap (λ r. r.1) h)

IsClean-session :
    (rows : List Product)
    → All IsValid rows
    → IsClean (record { rows = rows; new = []; committed = rows })
IsClean-session rows valid = record { nothing_new = refl; all_committed = refl; valid = valid }

-- A session whose rows are known.
pub turns :
    (c : Catalog) (t : Session) (rows : List Product)
    → t ≡ record { rows = rows; new = []; committed = rows }
    → ((k : ℕ) → find (with_id k) rows ≡ c k)
    → All IsValid rows
    → Turns c t
turns c t rows e look valid =
    subst (Turns c) (sym e) (record { lookup = look; clean = IsClean-session rows valid })

pub written :
    (p : Product) (s t : Session)
    → commit (write p (is_some (find (with_id p.product_id) s.rows)) s) ≡ (ok tt, t)
    → IsClean s
    → IsValid p
    → Turns (put p (catalog s)) t
written p s t h clean valid = elim (Option-cases (find (with_id p.product_id) s.rows)) [
  | inr (r, found) ↦
      turns (put p (catalog s)) t (update (with_id p.product_id) (λ _. p) s.rows)
        (commit_lands _ t (rw found at h)
          ∙ ap (λ rows. record { rows = rows; new = []; committed = rows })
              (ap (λ x. update (with_id p.product_id) (λ _. p) s.rows ++ x) clean.nothing_new
                ∙ append-nil _))
        (λ k. put-found p r s.rows k found)
        (All-update IsValid (with_id p.product_id) (λ _. p) s.rows (λ x e v. valid) clean.valid)
  | inl missing ↦
      turns (put p (catalog s)) t (s.rows ++ p ∷ [])
        (commit_lands _ t (rw missing at h)
          ∙ ap
              (λ new.
                let rows : List Product = s.rows ++ (new ++ p ∷ []) in
                record { rows = rows; new = []; committed = rows })
              clean.nothing_new)
        (λ k. put-new p s.rows k missing)
        (All-append IsValid s.rows (p ∷ []) clean.valid (valid, tt))
]

-- `save` and then `commit`, where both return.
saved :
    (p : Product) (s t : Session)
    → (save p >> commit) s ≡ (ok tt, t)
    → IsClean s
    → IsValid p
    → Turns (put p (catalog s)) t
unfolding save ◌>>=◌
saved p s t h clean valid = written p s t h clean valid

-- A product that is read is the catalog's.
pub get_valid :
    (product_id : ℕ) (s : Session) → IsClean s → get product_id s ≡ (ok (catalog s product_id), s)
unfolding get ◌>>=◌
get_valid product_id s clean = elim (Option-cases (find (with_id product_id) s.rows)) [
  | inl e ↦ rw e refl
  | inr (r, e) ↦ rw (e, All-find IsValid (with_id product_id) r s.rows e clean.valid) refl
]

pub new_product-same : (p q : Product) → new_product p ≡ ok q → p ≡ q
unfolding new_product validate_product_id validate_name validate_price
new_product-same p q h = ground (arith, h)

pub new_product-IsValid : (p q : Product) → new_product p ≡ ok q → IsValid q
new_product-IsValid p q h = subst (λ x. new_product x ≡ ok q) (new_product-same p q h) h

ok_injective : {A : Type 0} {a b : A} → ok a ≡ ok b → a ≡ b
ok_injective h = cc

pub lift_lands :
    {A : Type 0} (r : Result A) (s u : Session) (a : A)
    → lift r s ≡ (ok a, u)
    → (r ≡ ok a) × (s ≡ u)
unfolding lift
lift_lands r s u a h = (ap (λ x. x.0) h, ap (λ x. x.1) h)

-- `save`, `commit` and the return of the product.
pub saved_and_returned :
    (p q : Product) (s t : Session)
    → (save p >>= λ _. commit >>= λ _. pure p) s ≡ (ok q, t)
    → IsClean s
    → IsValid p
    → (p ≡ q) × Turns (put p (catalog s)) t
unfolding save pure ◌>>=◌
saved_and_returned p q s t h clean valid =
    let (_, u, e, k) =
      both_steps commit (λ _. pure p) (write p (is_some (find (with_id p.product_id) s.rows)) s) t q
        h in
    (
      ok_injective (ap (λ x. x.0) k),
      subst (Turns (put p (catalog s))) (ap (λ x. x.1) k) (written p s u e clean valid),
    )
