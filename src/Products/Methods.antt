-- ===== src/Products/Methods.antt =====
-- `create_product` and `delete_product` as changes of the catalog.
use wms_core.Base.{
  ℕ, ◌+◌, ◌==◌, ◌≡◌, sym, ap, ◌∙◌, true, not, Option, none, some, is_some, List, [], ==_iff, ◌++◌,
  append-nil, find, select, Bool-cases, Option-cases, inl, inr, arith, String,
}
use mathlib.Core.Path.{subst}
use wms_core.Exec.{
  Error, Result, ok, err, pure, raise, lift, validation_error, entity_already_exists_error,
  raise_if, continue, ◌>>=◌, ◌>>◌,
}
use wms_core.Exec.Ensures.{both_steps}
use wms_core.Products.Product.{Product, new_product}
use wms_core.Products.Repo.{Session, with_id, commit, get, get_all, to_domain_all, delete}
use wms_core.Products.Service.{
  Fields, max_id, create_named, save_and_commit, filled, resolve_product_id, create_product,
  get_product_details, delete_product,
}
use wms_core.Products.Catalog.{
  IsValid, IsClean, catalog, put, without, find-select_hit, find-select_miss, All-select, ids_apart,
}
use wms_core.Products.Writes.{
  Turns, turns, new_product-IsValid, new_product-same, commit_lands, saved_and_returned, lift_lands,
  get_valid,
}

ok_injective : {A : Type 0} {a b : A} → ok a ≡ ok b → a ≡ b
ok_injective h = cc

resolve_state :
    (product_id : Option ℕ) (s u : Session) (id : ℕ)
    → resolve_product_id product_id s ≡ (ok id, u)
    → s ≡ u
unfolding resolve_product_id get_all ◌>>=◌
resolve_state (some i) s u id h = ap (λ r. r.1) h
resolve_state none s u id h = go (to_domain_all s.rows) h
  where
    go :
        (r : Result (List Product))
        → continue r (λ products. pure (max_id products + 1)) s ≡ (ok id, u)
        → s ≡ u
    go (ok products) k = ap (λ x. x.1) k
    go (err e) k = absurd (ground (arith, ap (λ x. x.0) k))

raised : {A : Type 0} (e : Error) (a : A) (s t : Session) → raise e s ≡ (ok a, t) → ⊥
unfolding raise
raised e a s t h = ground (arith, ap (λ r. r.0) h)

-- The product of a creation: its id was free, it has the fields that were given, and the catalog has it.
abbrev IsNew : ℕ → Fields → Option String → Session → Product → Session → Type 0
IsNew id f none s p t = ⊥
IsNew id f (some name) s p t =
    (catalog s p.product_id ≡ none) × Turns (put p (catalog s)) t × (filled id f name ≡ p)

create_named_lands :
    (id : ℕ) (f : Fields) (name : Option String) (s t : Session) (p : Product)
    → create_named id f name s ≡ (ok p, t)
    → IsClean s
    → catalog s id ≡ none
    → IsNew id f name s p t
create_named_lands id f none s t p h clean free = absurd (raised validation_error p s t h)
create_named_lands id f (some name) s t p h clean free =
    let (q, u, e, k) = both_steps (lift (new_product (filled id f name))) save_and_commit s t p h in
    let (accepted, same) = lift_lands (new_product (filled id f name)) s u q e in
    let (returned, turned) =
      saved_and_returned q p s t (subst (λ x. save_and_commit q x ≡ (ok p, t)) (sym same) k) clean
        (new_product-IsValid (filled id f name) q accepted) in
    let whole : filled id f name ≡ p = new_product-same (filled id f name) q accepted ∙ returned in
    (
      subst (λ x. catalog s x.product_id ≡ none) whole free,
      subst (λ x. Turns (put x (catalog s)) t) returned turned,
      whole,
    )

create_checked :
    (id : ℕ) (f : Fields) (s t : Session) (p : Product)
    → (get id >>= λ existing.
          raise_if (is_some existing) entity_already_exists_error >> create_named id f f.name)
        s
      ≡ (ok p, t)
    → IsClean s
    → IsNew id f f.name s p t
unfolding raise_if ◌>>=◌
create_checked id f s t p h clean = elim (Option-cases (catalog s id)) [
  | inl free ↦
      create_named_lands id f f.name s t p (rw free at (rw (get_valid id s clean) at h)) clean free
  | inr (r, taken) ↦
      absurd (ground (arith, ap (λ x. x.0) (rw taken at (rw (get_valid id s clean) at h))))
]

create_resolved :
    (product_id : Option ℕ) (f : Fields) (s t : Session) (p : Product)
    → create_product product_id f s ≡ (ok p, t)
    → IsClean s
    → (id : ℕ) × (resolve_product_id product_id s ≡ (ok id, s)) × IsNew id f f.name s p t
unfolding create_product
create_resolved product_id f s t p h clean =
    let (id, u, e, h1) = both_steps (resolve_product_id product_id) _ s t p h in
    let same = resolve_state product_id s u id e in
    (
      id,
      e ∙ ap (λ x. (ok id, x)) (sym same),
      create_checked id f s t p
          (subst
            (λ x.
              (get id >>= λ existing.
              raise_if (is_some existing) entity_already_exists_error >> create_named id f f.name)
                x
              ≡ (ok p, t))
            (sym same) h1)
          clean,
    )

new_lands :
    (id : ℕ) (f : Fields) (name : Option String) (s t : Session) (p : Product)
    → IsNew id f name s p t
    → (catalog s p.product_id ≡ none) × Turns (put p (catalog s)) t
new_lands id f none s t p new = absurd new
new_lands id f (some name) s t p (free, turned, _) = (free, turned)

-- `create_product` returns a product whose id was free, and the catalog has it then and is the same
-- elsewhere.
pub created :
    (product_id : Option ℕ) (f : Fields) (s t : Session) (p : Product)
    → create_product product_id f s ≡ (ok p, t)
    → IsClean s
    → (catalog s p.product_id ≡ none) × Turns (put p (catalog s)) t
created product_id f s t p h clean =
    let (id, _, new) = create_resolved product_id f s t p h clean in new_lands id f f.name s t p new

-- A creation under an id that is given.
pub created_as :
    (id : ℕ) (f : Fields) (name : String) (s t : Session) (p : Product)
    → f.name ≡ some name
    → create_product (some id) f s ≡ (ok p, t)
    → IsClean s
    → Turns (put (filled id f name) (catalog s)) t
unfolding resolve_product_id create_resolved pure
created_as id f name s t p named h clean =
    let (i, r, new) = create_resolved (some id) f s t p h clean in
    let (_, turned, whole) =
      subst (λ n. IsNew id f n s p t) named
        (subst (λ x. IsNew x f f.name s p t) (sym (ok_injective (ap (λ x. x.0) r))) new) in
    subst (λ x. Turns (put x (catalog s)) t) (sym whole) turned

deleted_rows :
    (product_id : ℕ) (s t : Session)
    → commit (record s { rows = select (λ p. not (with_id product_id p)) s.rows }) ≡ (ok tt, t)
    → IsClean s
    → Turns (without product_id (catalog s)) t
deleted_rows product_id s t h clean =
    turns (without product_id (catalog s)) t (select (λ p. not (with_id product_id p)) s.rows)
      (commit_lands _ t h
        ∙ ap (λ rows. record { rows = rows; new = []; committed = rows })
            (ap (λ x. select (λ p. not (with_id product_id p)) s.rows ++ x) clean.nothing_new
              ∙ append-nil _))
      look (All-select IsValid (λ p. not (with_id product_id p)) s.rows clean.valid)
  where
    look :
        (k : ℕ)
        → find (with_id k) (select (λ p. not (with_id product_id p)) s.rows)
          ≡ without product_id (catalog s) k
    look k = elim (Bool-cases (product_id == k)) [
      | inl e ↦ rw e (
          subst (λ x. find (with_id x) (select (λ p. not (with_id product_id p)) s.rows) ≡ none)
            ((==_iff product_id k).0 e) (find-select_hit (with_id product_id) s.rows))
      | inr e ↦
          rw e (find-select_miss (with_id product_id) (with_id k) s.rows (ids_apart product_id k e))
    ]

-- `delete_product` takes a product that was there out of the catalog, and nothing else.
pub deleted :
    (product_id : ℕ) (s t : Session)
    → delete_product product_id s ≡ (ok tt, t)
    → IsClean s
    → (is_some (catalog s product_id) ≡ true) × Turns (without product_id (catalog s)) t
unfolding delete_product get_product_details delete ◌>>=◌
deleted product_id s t h clean = elim (Option-cases (catalog s product_id)) [
  | inl e ↦
      absurd (ground (arith, ap (λ x. x.0) (rw e at (rw (get_valid product_id s clean) at h))))
  | inr (r, e) ↦ (
    ap is_some e,
    deleted_rows product_id s t (rw e at (rw e at (rw (get_valid product_id s clean) at h))) clean,
  )
]
