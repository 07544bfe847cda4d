-- ===== src/Exec/Atomic.antt =====
-- Actions that publish part of their state at most once, after which only late errors are raised:
-- where such an action raises another error, that part is as it was. `part` is what others see of
-- the state.
use wms_core.Base.{◌≡◌, refl, ◌∙◌, Bool, true, false, List, [], ◌∷◌, if◌then◌else◌}
use wms_core.Exec.{
  Error, Result, ok, err, Exec, pure, raise, lift, gets, modify, raise_if, continue, ◌>>=◌,
  for_each,
}

module _ {ℓ} {S D A : Type ℓ} (part : S → D) where
  -- `m` never changes the part.
  pub record IsQuiet (m : Exec S A) : Type ℓ where
    pub at : (s : S) → part (m s).1 ≡ part s

  -- Where `m` raises, the part is unchanged; but for `late` errors.
  pub record IsAtomic (late : Error → Bool) (m : Exec S A) : Type ℓ where
    pub at : (s : S) (e : Error) → (m s).0 ≡ err e → late e ≡ false → part (m s).1 ≡ part s

-- `m` raises nothing but late errors.
pub record IsTotal {ℓ} {S A : Type ℓ} (late : Error → Bool) (m : Exec S A) : Type ℓ where
  pub at : (s : S) (e : Error) → (m s).0 ≡ err e → late e ≡ true

-- No error is late.
unfoldable pub never : Error → Bool
never e = false

module _ {ℓ} {S D A : Type ℓ} {part : S → D} where
  pub IsQuiet-IsAtomic :
      {late : Error → Bool} {m : Exec S A} → IsQuiet part m → IsAtomic part late m
  IsQuiet-IsAtomic q = record { at = λ s e _ _. q.at s }

  pub IsQuiet-pure : (a : A) → IsQuiet part (pure a)
  unfolding pure
  IsQuiet-pure a = record { at = λ s. refl }

  pub IsQuiet-raise : (e : Error) → IsQuiet part (raise {A = A} e)
  unfolding raise
  IsQuiet-raise e = record { at = λ s. refl }

  pub IsQuiet-lift : (r : Result A) → IsQuiet part (lift r)
  unfolding lift
  IsQuiet-lift r = record { at = λ s. refl }

  pub IsQuiet-gets : (f : S → A) → IsQuiet part (gets f)
  unfolding gets
  IsQuiet-gets f = record { at = λ s. refl }

  pub IsQuiet-if :
      (b : Bool) (m n : Exec S A)
      → IsQuiet part m
      → IsQuiet part n
      → IsQuiet part (if b then m else n)
  IsQuiet-if true m n qm qn = qm
  IsQuiet-if false m n qm qn = qn

  pub IsAtomic-if :
      {late : Error → Bool} (b : Bool) (m n : Exec S A)
      → IsAtomic part late m
      → IsAtomic part late n
      → IsAtomic part late (if b then m else n)
  IsAtomic-if true m n am an = am
  IsAtomic-if false m n am an = an

module _ {ℓ} {S D : Type ℓ} {part : S → D} where
  pub IsQuiet-raise_if : (b : Bool) (e : Error) → IsQuiet part (raise_if b e)
  unfolding raise_if
  IsQuiet-raise_if true e = record { at = λ s. refl }
  IsQuiet-raise_if false e = record { at = λ s. refl }

  pub IsQuiet-modify : (f : S → S) → ((s : S) → part (f s) ≡ part s) → IsQuiet part (modify f)
  unfolding modify
  IsQuiet-modify f h = record { at = h }

module _ {ℓ} {S D A B : Type ℓ} where
  total_rest :
      (part : S → D) {late : Error → Bool} (s s' : S) (r : Result A) (f : A → Exec S B)
      → ((e : Error) → r ≡ err e → late e ≡ false → part s' ≡ part s)
      → ((a : A) → IsTotal late (f a))
      → (e : Error) → (continue r f s').0 ≡ err e
      → late e ≡ false
      → part (continue r f s').1 ≡ part s
  total_rest part s s' (ok a) f h t e q early = absurd (cc ((t a).at s' e q, early))
  total_rest part s s' (err x) f h t e q early = h x refl (cc (q, early))

module _ {ℓ} {S D A B : Type ℓ} {part : S → D} where
  abbrev quiet_rest :
      (s' : S) (r : Result A) (f : A → Exec S B)
      → ((a : A) → IsQuiet part (f a))
      → part (continue r f s').1 ≡ part s'
  quiet_rest s' (ok a) f q = (q a).at s'
  quiet_rest s' (err e) f q = refl

  pub IsQuiet-bind :
      (m : Exec S A) (f : A → Exec S B)
      → IsQuiet part m
      → ((a : A) → IsQuiet part (f a))
      → IsQuiet part (m >>= f)
  unfolding ◌>>=◌
  IsQuiet-bind m f qm qf = record { at = λ s. quiet_rest (m s).1 (m s).0 f qf ∙ qm.at s }

  atomic_rest :
      {late : Error → Bool} (s' : S) (r : Result A) (f : A → Exec S B)
      → ((a : A) → IsAtomic part late (f a))
      → (e : Error) → (continue r f s').0 ≡ err e
      → late e ≡ false
      → part (continue r f s').1 ≡ part s'
  atomic_rest s' (ok a) f q e h early = (q a).at s' e h early
  atomic_rest s' (err x) f q e h early = refl

  -- What comes before the step that publishes is quiet.
  pub IsAtomic-bind :
      {late : Error → Bool} (m : Exec S A) (f : A → Exec S B)
      → IsQuiet part m
      → ((a : A) → IsAtomic part late (f a))
      → IsAtomic part late (m >>= f)
  unfolding ◌>>=◌
  IsAtomic-bind m f qm af = record {
    at = λ s e h early. atomic_rest (m s).1 (m s).0 f af e h early ∙ qm.at s;
  }

  -- What comes after it raises nothing but late errors.
  pub IsAtomic-last :
      {late : Error → Bool} (m : Exec S A) (f : A → Exec S B)
      → IsAtomic part late m
      → ((a : A) → IsTotal late (f a))
      → IsAtomic part late (m >>= f)
  unfolding ◌>>=◌
  IsAtomic-last m f am tf = record {
    at = λ s e h early. total_rest part s (m s).1 (m s).0 f (am.at s) tf e h early;
  }

module _ {ℓ} {S A X : Type ℓ} {D : Type ℓ} {part : S → D} where
  pub IsQuiet-for_each :
      (xs : List X) (body : X → Exec S A)
      → ((x : X) → IsQuiet part (body x))
      → IsQuiet part (for_each xs body)
  unfolding for_each
  IsQuiet-for_each [] body q = IsQuiet-pure tt
  IsQuiet-for_each (x ∷ xs) body q =
      IsQuiet-bind (body x) (λ _. for_each xs body) (q x) (λ _. IsQuiet-for_each xs body q)

pub ruleset quiet_rules = (
  IsQuiet-pure, IsQuiet-raise, IsQuiet-lift, IsQuiet-gets, IsQuiet-if, IsQuiet-raise_if,
  IsQuiet-bind, IsQuiet-for_each,
)
