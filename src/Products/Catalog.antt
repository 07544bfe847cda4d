-- ===== src/Products/Catalog.antt =====
-- The table as a catalog, a function from ids to products: what a commit of a saved product does to it.
use wms_core.Base.{
  ℕ, ◌==◌, ==_iff, ==_self, ◌≡◌, refl, ap, ◌∙◌, Bool, true, false, not, Option, none, some, List,
  [], ◌∷◌, ◌++◌, find, update, select, All, Bool-cases, inl, inr, arith, if◌then◌else◌,
}
use wms_core.Base.Tables.{find-append_none}
use mathlib.Core.Path.{subst}
use wms_core.Exec.{ok}
use wms_core.Products.Product.{Product, new_product}
use wms_core.Products.Repo.{Session, with_id}

module _ {A : Type 0} where
  -- The row that is replaced is found again.
  find-update_hit :
      (p : A → Bool) (y x : A) (xs : List A)
      → p y ≡ true
      → find p xs ≡ some x
      → find p (update p (λ _. y) xs) ≡ some y
  unfolding find update
  find-update_hit p y x [] hit h = absurd (ground (arith, h))
  find-update_hit p y x (z ∷ xs) hit h = elim (Bool-cases (p z)) [
    | inl e ↦ rw (e, hit) refl
    | inr e ↦ rw (e, e) (find-update_hit p y x xs hit (rw e at h))
  ]

  -- Another query does not see the replacement.
  find-update_miss :
      (p q : A → Bool) (y : A) (xs : List A)
      → q y ≡ false
      → ((x : A) → p x ≡ true → q x ≡ false)
      → find q (update p (λ _. y) xs) ≡ find q xs
  unfolding find update
  find-update_miss p q y [] miss apart = refl
  find-update_miss p q y (z ∷ xs) miss apart = elim (Bool-cases (p z)) [
    | inl e ↦ rw (e, miss, apart z e) refl
    | inr e ↦ rw e (ap (λ r. if q z then some z else r) (find-update_miss p q y xs miss apart))
  ]

  find-append_miss :
      (q : A → Bool) (y : A) (xs : List A) → q y ≡ false → find q (xs ++ y ∷ []) ≡ find q xs
  unfolding find
  find-append_miss q y [] miss = rw miss refl
  find-append_miss q y (z ∷ xs) miss =
      ap (λ r. if q z then some z else r) (find-append_miss q y xs miss)

  pub find-select_hit : (p : A → Bool) (xs : List A) → find p (select (λ x. not (p x)) xs) ≡ none
  unfolding find select
  find-select_hit p [] = refl
  find-select_hit p (z ∷ xs) = elim (Bool-cases (p z)) [
    | inl e ↦ rw e (find-select_hit p xs)
    | inr e ↦ rw (e, e) (find-select_hit p xs)
  ]

  pub find-select_miss :
      (p q : A → Bool) (xs : List A)
      → ((x : A) → p x ≡ true → q x ≡ false)
      → find q (select (λ x. not (p x)) xs) ≡ find q xs
  unfolding find select
  find-select_miss p q [] apart = refl
  find-select_miss p q (z ∷ xs) apart = elim (Bool-cases (p z)) [
    | inl e ↦ rw (e, apart z e) (find-select_miss p q xs apart)
    | inr e ↦ rw e (ap (λ r. if q z then some z else r) (find-select_miss p q xs apart))
  ]

  pub All-select {κ} :
      (P : A → Type κ) (p : A → Bool) (xs : List A) → All P xs → All P (select p xs)
  unfolding select
  All-select P p [] h = tt
  All-select P p (z ∷ xs) h = elim (Bool-cases (p z)) [
    | inl e ↦ rw e (h.0, All-select P p xs h.1)
    | inr e ↦ rw e (All-select P p xs h.1)
  ]

-- A product that its constructor accepts.
abbrev pub IsValid : Product → Type 0
IsValid p = new_product p ≡ ok p

-- Between two calls nothing is pending, and the rows are valid.
pub record IsClean (s : Session) : Type 0 where
  pub nothing_new : s.new ≡ []
  pub all_committed : s.committed ≡ s.rows
  pub valid : All IsValid s.rows

abbrev pub Catalog : Type 0
Catalog = ℕ → Option Product

abbrev pub catalog : Session → Catalog
catalog s k = find (with_id k) s.rows

-- The catalog with one product written, and with one taken out.
abbrev pub put : Product → Catalog → Catalog
put p c k = if p.product_id == k then some p else c k

abbrev pub without : ℕ → Catalog → Catalog
without product_id c k = if product_id == k then none else c k

pub ids_apart :
    (i k : ℕ) → (i == k) ≡ false → (x : Product) → with_id i x ≡ true → with_id k x ≡ false
ids_apart i k e x h = ground (arith, e, h)

pub put-found :
    (p r : Product) (rows : List Product) (k : ℕ)
    → find (with_id p.product_id) rows ≡ some r
    → find (with_id k) (update (with_id p.product_id) (λ _. p) rows)
      ≡ put p (λ k. find (with_id k) rows) k
put-found p r rows k found = elim (Bool-cases (p.product_id == k)) [
  | inl e ↦ rw e (
      subst (λ x. find (with_id x) (update (with_id p.product_id) (λ _. p) rows) ≡ some p)
        ((==_iff p.product_id k).0 e)
        (find-update_hit (with_id p.product_id) p r rows (==_self p.product_id) found))
  | inr e ↦
      rw e
        (find-update_miss (with_id p.product_id) (with_id k) p rows e (ids_apart p.product_id k e))
]

pub put-new :
    (p : Product) (rows : List Product) (k : ℕ)
    → find (with_id p.product_id) rows ≡ none
    → find (with_id k) (rows ++ p ∷ []) ≡ put p (λ k. find (with_id k) rows) k
unfolding find
put-new p rows k missing = elim (Bool-cases (p.product_id == k)) [
  | inl e ↦ rw e (
      subst (λ x. find (with_id x) (rows ++ p ∷ []) ≡ some p) ((==_iff p.product_id k).0 e)
        (find-append_none (with_id p.product_id) rows (p ∷ []) missing
          ∙ rw (==_self p.product_id) refl))
  | inr e ↦ rw e (find-append_miss (with_id k) p rows e)
]
