-- ===== src/Exec/Keeps.antt =====
-- What an action keeps, whether it returns or raises: one rule for each way to build an action.
use wms_core.Base.{◌≡◌, refl, sym, Bool, true, false, List, [], ◌∷◌, if◌then◌else◌}
use mathlib.Core.Path.{subst}
use wms_core.Exec.{Error, Result, ok, err, Exec, pure, raise, lift, gets, raise_if, ◌>>=◌, for_each}

module _ {ℓ} {S : Type ℓ} (Inv : S → Type ℓ) where
  -- `action` keeps `Inv`.
  pub record Keeps {A : Type ℓ} (action : Exec S A) : Type ℓ where
    pub at : (before : S) → Inv before → Inv (action before).1

module _ {ℓ} {S X : Type ℓ} {Inv : S → Type ℓ} where
  -- An action that writes nothing.
  still : (action : Exec S X) → ((s : S) → (action s).1 ≡ s) → Keeps Inv action
  still action same = record { at = λ s inv. subst Inv (sym (same s)) inv }

  pub Keeps-if :
      (test : Bool) (m n : Exec S X) → Keeps Inv m → Keeps Inv n → Keeps Inv (if test then m else n)
  Keeps-if false m n keeps_m keeps_n = keeps_n
  Keeps-if true m n keeps_m keeps_n = keeps_m

  pub Keeps-gets : (query : S → X) → Keeps Inv (gets query)
  unfolding gets
  Keeps-gets query = still (gets query) (λ s. refl)

  pub Keeps-lift : (result : Result X) → Keeps Inv (lift result)
  unfolding lift
  Keeps-lift result = still (lift result) (λ s. refl)

  pub Keeps-raise : (error : Error) → Keeps Inv (raise {A = X} error)
  unfolding raise
  Keeps-raise error = still (raise error) (λ s. refl)

  pub Keeps-pure : (value : X) → Keeps Inv (pure value)
  unfolding pure
  Keeps-pure value = still (pure value) (λ s. refl)

module _ {ℓ} {S : Type ℓ} {Inv : S → Type ℓ} where
  pub Keeps-raise_if : (test : Bool) (error : Error) → Keeps Inv (raise_if test error)
  unfolding raise_if
  Keeps-raise_if true error = still _ (λ s. refl)
  Keeps-raise_if false error = still _ (λ s. refl)

module _ {ℓ} {S X Y : Type ℓ} {Inv : S → Type ℓ} where
  continued :
      (result : Result X) (rest : X → Exec S Y)
      → ((x : X) → Keeps Inv (rest x))
      → Keeps Inv (lift result >>= rest)
  unfolding ◌>>=◌
  continued (err error) rest each = Keeps-raise error
  continued (ok x) rest each = each x

  pub Keeps-bind :
      (first : Exec S X) (rest : X → Exec S Y)
      → Keeps Inv first
      → ((x : X) → Keeps Inv (rest x))
      → Keeps Inv (first >>= rest)
  unfolding ◌>>=◌
  Keeps-bind first rest keeps each = record {
    at = λ s inv. (continued (first s).0 rest each).at (first s).1 (keeps.at s inv);
  }

module _ {ℓ} {S X Y : Type ℓ} {Inv : S → Type ℓ} where
  pub Keeps-for_each :
      (xs : List Y) (body : Y → Exec S X)
      → ((y : Y) → Keeps Inv (body y))
      → Keeps Inv (for_each xs body)
  unfolding for_each
  Keeps-for_each [] body each = Keeps-pure tt
  Keeps-for_each (y ∷ ys) body each =
      Keeps-bind (body y) _ (each y) (λ _. Keeps-for_each ys body each)

pub ruleset keeps_rules = (
  Keeps-bind, Keeps-for_each, Keeps-if, Keeps-raise_if, Keeps-gets, Keeps-lift, Keeps-raise,
  Keeps-pure,
)
