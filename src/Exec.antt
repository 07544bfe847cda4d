-- ===== src/Exec.antt =====
-- Python methods that change state and may raise: the exceptions of
-- Services/inventory-service/src/app/shared/domain/business_exceptions.py (each service has a copy
-- of that file) with the built-in ones that the code raises, and actions over a state. What was
-- written before a raise stays written, so the state comes back beside the error too.
pub mod Keeps
pub mod Atomic
pub mod Ensures
use wms_core.Base.{◌≡◌, refl, Bool, true, false, List, [], ◌∷◌}

pub data Error : Type 0 where
  validation_error invalid_id_error invalid_quantity_error : Error
  entity_not_found_error entity_already_exists_error : Error
  warehouse_not_found_error document_not_found_error : Error
  business_rule_violation_error invalid_document_status_error insufficient_stock_error : Error
  key_error value_error type_error integrity_error rpc_error : Error
  -- what the publisher of events raises
  publish_error : Error

pub data Result {ℓ} (A : Type ℓ) : Type ℓ where
  ok : A → Result A
  err : Error → Result A

abbrev pub Exec {ℓ} : Type ℓ → Type ℓ → Type ℓ
Exec S A = S → Result A × S

module _ {ℓ} {S A : Type ℓ} where
  unfoldable pub pure : A → Exec S A
  pure a s = (ok a, s)

  unfoldable pub raise : Error → Exec S A
  raise e s = (err e, s)

  unfoldable pub lift : Result A → Exec S A
  lift r s = (r, s)

  unfoldable pub gets : (S → A) → Exec S A
  gets f s = (ok (f s), s)

module _ {ℓ} {S : Type ℓ} where
  unfoldable pub modify : (S → S) → Exec S (Unit {ℓ})
  modify f s = (ok tt, f s)

  -- `if test: raise error`
  unfoldable pub raise_if : Bool → Error → Exec S (Unit {ℓ})
  raise_if true e s = (err e, s)
  raise_if false e s = (ok tt, s)

module _ {ℓ} {S A B : Type ℓ} where
  abbrev pub continue : Result A → (A → Exec S B) → Exec S B
  continue (ok a) f s = f a s
  continue (err e) f s = (err e, s)

  infixl 10 ◌>>=◌ ◌>>◌
  -- Opening this opens the actions above too.
  unfoldable pub ◌>>=◌ : Exec S A → (A → Exec S B) → Exec S B
  unfolding pure raise lift gets modify raise_if
  ◌>>=◌ m f s = let (r, s') = m s in continue r f s'

  abbrev pub ◌>>◌ : Exec S A → Exec S B → Exec S B
  m >> n = m >>= λ _. n

module _ {ℓ} {S A : Type ℓ} where
  -- `for x in xs: body(x)`
  unfoldable pub for_each : {X : Type ℓ} → List X → (X → Exec S A) → Exec S (Unit {ℓ})
  for_each [] body = pure tt
  for_each (x ∷ xs) body = body x >>= λ _. for_each xs body

module _ {ℓ} {S A B : Type ℓ} where
  continue-pure_state : (r : Result A) (b : B) (s : S) → (continue r (λ _. pure b) s).1 ≡ s
  unfolding pure
  continue-pure_state (ok a) b s = refl
  continue-pure_state (err e) b s = refl

  -- A value at the end leaves the state as it is.
  pub then_pure_state : (m : Exec S A) (b : B) (s : S) → ((m >> pure b) s).1 ≡ (m s).1
  unfolding ◌>>=◌
  then_pure_state m b s = continue-pure_state (m s).0 b (m s).1
