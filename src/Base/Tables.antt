-- ===== src/Base/Tables.antt =====
-- Laws of the operations on rows: queries, writes in place and sums of a column.
use mathlib.Core.Path.{◌≡◌, refl, subst}
use mathlib.Core.Bool.{Bool, true, false}
use mathlib.Core.Logic.{inl, inr}
use mathlib.Core.Option
use mathlib.Core.Option.{Option, none, some}
use mathlib.Core.List.{List, [], ◌∷◌, ◌++◌, map}
use native.Mathlib.Omega.{arith}
use wms_core.Base.Logic.{is_some, Bool-cases}
use wms_core.Base.Int.{ℤ, ◌+ℤ◌, int_laws}
use wms_core.Base.Lists.{find, update, sum_by, All}

module _ {ℓ} {A : Type ℓ} where
  -- A write that keeps the test: the query returns the written row.
  pub find-update_self :
      (p : A → Bool) (f : A → A) (xs : List A)
      → ((x : A) → p (f x) ≡ p x)
      → find p (update p f xs) ≡ Option.map f (find p xs)
  unfolding find update
  find-update_self p f [] keep = refl
  find-update_self p f (x ∷ xs) keep = ground (arith, keep x, find-update_self p f xs keep)

  -- A write to rows that another test refuses.
  pub find-update_ne :
      (p q : A → Bool) (f : A → A) (xs : List A)
      → ((x : A) → q (f x) ≡ q x)
      → ((x : A) → p x ≡ true → q x ≡ false)
      → find q (update p f xs) ≡ find q xs
  unfolding find update
  find-update_ne p q f [] keep apart = refl
  find-update_ne p q f (x ∷ xs) keep apart =
      ground (arith, keep x, apart x, find-update_ne p q f xs keep apart)

  -- Whether a query finds a row does not depend on writes that keep the test.
  pub is_some-find-update :
      (p q : A → Bool) (f : A → A) (xs : List A)
      → ((x : A) → q (f x) ≡ q x)
      → is_some (find q (update p f xs)) ≡ is_some (find q xs)
  unfolding find update
  is_some-find-update p q f [] keep = refl
  is_some-find-update p q f (x ∷ xs) keep =
      ground (arith, keep x, is_some-find-update p q f xs keep)

  pub update-find-none :
      (p : A → Bool) (f : A → A) (xs : List A) → find p xs ≡ none → update p f xs ≡ xs
  unfolding find update
  update-find-none p f [] h = refl
  update-find-none p f (x ∷ xs) h = ground (arith, update-find-none p f xs)

  pub find_holds : (p : A → Bool) (r : A) (xs : List A) → find p xs ≡ some r → p r ≡ true
  unfolding find
  find_holds p r [] h = cc
  find_holds p r (x ∷ xs) h = ground (arith, find_holds p r xs)

  pub find-append :
      (p : A → Bool) (r : A) (xs ys : List A) → find p xs ≡ some r → find p (xs ++ ys) ≡ some r
  unfolding find
  find-append p r [] ys h = cc
  find-append p r (x ∷ xs) ys h = ground (arith, find-append p r xs ys)

  pub is_some-find-append :
      (p : A → Bool) (xs ys : List A)
      → is_some (find p xs) ≡ true
      → is_some (find p (xs ++ ys)) ≡ true
  unfolding find
  is_some-find-append p [] ys h = cc
  is_some-find-append p (x ∷ xs) ys h = ground (arith, is_some-find-append p xs ys)

  pub is_some-find-append_right :
      (p : A → Bool) (xs ys : List A)
      → is_some (find p ys) ≡ true
      → is_some (find p (xs ++ ys)) ≡ true
  unfolding find
  is_some-find-append_right p [] ys h = h
  is_some-find-append_right p (x ∷ xs) ys h = ground (arith, is_some-find-append_right p xs ys)

  pub find-append_none :
      (p : A → Bool) (xs ys : List A) → find p xs ≡ none → find p (xs ++ ys) ≡ find p ys
  unfolding find
  find-append_none p [] ys h = refl
  find-append_none p (x ∷ xs) ys h = ground (arith, find-append_none p xs ys)

  pub update-append :
      (p : A → Bool) (f : A → A) (r : A) (xs ys : List A)
      → find p xs ≡ some r
      → update p f (xs ++ ys) ≡ update p f xs ++ ys
  unfolding find update
  update-append p f r [] ys h = cc
  update-append p f r (x ∷ xs) ys h = ground (arith, update-append p f r xs ys)

  -- The sum of a column after a write to the row that the query returns.
  pub sum_by-update :
      (g : A → ℤ) (p : A → Bool) (f : A → A) (r : A) (xs : List A)
      → find p xs ≡ some r
      → sum_by g (update p f xs) +ℤ g r ≡ sum_by g xs +ℤ g (f r)
  unfolding find update sum_by
  sum_by-update g p f r [] h = cc
  sum_by-update g p f r (x ∷ xs) h = grind (int_laws, sum_by-update g p f r xs)

  pub sum_by-append :
      (g : A → ℤ) (xs ys : List A) → sum_by g (xs ++ ys) ≡ sum_by g xs +ℤ sum_by g ys
  unfolding sum_by
  sum_by-append g [] ys = omega int_laws
  sum_by-append g (x ∷ xs) ys = rw (sum_by-append g xs ys) (omega int_laws)

  pub All-append {κ} : (P : A → Type κ) (xs ys : List A) → All P xs → All P ys → All P (xs ++ ys)
  All-append P [] ys hx hy = hy
  All-append P (x ∷ xs) ys hx hy = (hx.0, All-append P xs ys hx.1 hy)

  -- A write keeps a predicate of the rows if it keeps it at the row that the query returns.
  pub All-update {κ} :
      (P : A → Type κ) (p : A → Bool) (f : A → A) (xs : List A)
      → ((x : A) → find p xs ≡ some x → P x → P (f x))
      → All P xs
      → All P (update p f xs)
  unfolding find update
  All-update P p f [] keep h = h
  All-update P p f (x ∷ xs) keep h = elim (Bool-cases (p x)) [
    | inl e ↦ rw e (keep x (rw e) h.0, h.1)
    | inr e ↦ rw e (h.0, All-update P p f xs (λ y found. keep y (rw e found)) h.1)
  ]

  pub All-map {κ} : (P Q : A → Type κ) (xs : List A) → ((x : A) → P x → Q x) → All P xs → All Q xs
  All-map P Q [] k h = tt
  All-map P Q (x ∷ xs) k h = (k x h.0, All-map P Q xs k h.1)

  find-first :
      (p : A → Bool) (r x : A) (xs : List A) → p x ≡ true → find p (x ∷ xs) ≡ some r → x ≡ r
  unfolding find
  find-first p r x xs e h = ground arith

  pub All-find {κ} :
      (P : A → Type κ) (p : A → Bool) (r : A) (xs : List A) → find p xs ≡ some r → All P xs → P r
  unfolding find
  All-find P p r [] found h = cc
  All-find P p r (x ∷ xs) found h = elim (Bool-cases (p x)) [
    | inl e ↦ subst P (find-first p r x xs e found) h.0
    | inr e ↦ All-find P p r xs (rw e at found) h.1
  ]

module _ {ℓ κ} {A : Type ℓ} {B : Type κ} where
  -- A query on rows that are each made of another row.
  pub find-map :
      (f : A → B) (p : B → Bool) (q : A → Bool) (xs : List A)
      → ((x : A) → p (f x) ≡ q x)
      → find p (map f xs) ≡ Option.map f (find q xs)
  unfolding find
  find-map f p q [] same = refl
  find-map f p q (x ∷ xs) same = elim (Bool-cases (q x)) [
    | inl e ↦ rw (same x, e) refl
    | inr e ↦ rw (same x, e) (find-map f p q xs same)
  ]
