-- ===== src/Exec/Ensures.antt =====
-- What an action that returns has done, as a relation between the states before and after.
use wms_core.Base.{◌≡◌, refl, ap, arith}
use wms_core.Exec.{Result, ok, err, Exec, lift, continue, ◌>>=◌}

-- Where `m` returns, the states are related.
pub record Ensures {ℓ} {S A : Type ℓ} (R : S → S → Type ℓ) (m : Exec S A) : Type ℓ where
  pub at : (s : S) (a : A) → (m s).0 ≡ ok a → R s (m s).1

module _ {ℓ} {S A B : Type ℓ} where
  ensures_rest :
      (R Q T : S → S → Type ℓ) (s t : S) (r : Result A) (f : A → Exec S B)
      → ((a : A) → r ≡ ok a → R s t)
      → ((a : A) → Ensures Q (f a))
      → ((u : S) → R s t → Q t u → T s u)
      → (b : B) → (continue r f t).0 ≡ ok b
      → T s (continue r f t).1
  ensures_rest R Q T s t (ok a) f first rest join b h =
      join (f a t).1 (first a refl) ((rest a).at t b h)
  ensures_rest R Q T s t (err e) f first rest join b h = cc

module _ {ℓ} {S A B : Type ℓ} {R Q T : S → S → Type ℓ} where
  pub Ensures-bind :
      (m : Exec S A) (f : A → Exec S B)
      → ((s t u : S) → R s t → Q t u → T s u)
      → Ensures R m
      → ((a : A) → Ensures Q (f a))
      → Ensures T (m >>= f)
  unfolding ◌>>=◌
  Ensures-bind m f join first rest = record {
    at = λ s b h. ensures_rest R Q T s (m s).1 (m s).0 f (first.at s) rest (join s (m s).1) b h;
  }

module _ {ℓ} {S A : Type ℓ} {R T : S → S → Type ℓ} where
  pub Ensures-weaken : (m : Exec S A) → ((s t : S) → R s t → T s t) → Ensures R m → Ensures T m
  Ensures-weaken m weaker e = record { at = λ s a h. weaker s (m s).1 (e.at s a h) }

module _ {ℓ} {S A B : Type ℓ} {R : S → S → Type ℓ} where
  -- Checks before the work.
  pub Ensures-lift :
      (r : Result A) (f : A → Exec S B) → ((a : A) → Ensures R (f a)) → Ensures R (lift r >>= f)
  unfolding ◌>>=◌
  Ensures-lift (ok a) f rest = rest a
  Ensures-lift (err e) f rest = record { at = λ s b h. cc }

module _ {ℓ} {S A B : Type ℓ} where
  -- Where a bind returns, both of its parts have.
  pub both_steps :
      (m : Exec S A) (f : A → Exec S B) (s t : S) (b : B)
      → (m >>= f) s ≡ (ok b, t)
      → (a : A) × (u : S) × (m s ≡ (ok a, u)) × (f a u ≡ (ok b, t))
  unfolding ◌>>=◌
  both_steps m f s t b h = go (m s).0 (m s).1 refl h
    where
      go :
          (r : Result A) (u : S)
          → m s ≡ (r, u)
          → continue r f u ≡ (ok b, t)
          → (a : A) × (v : S) × (m s ≡ (ok a, v)) × (f a v ≡ (ok b, t))
      go (ok a) u e k = (a, u, e, k)
      go (err x) u e k = absurd (ground (arith, ap (λ q. q.0) k))
