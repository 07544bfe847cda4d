-- ===== src/Documents/Results.antt =====
-- Chains of checks and results that came through.
use wms_core.Base.{◌≡◌, refl}
use wms_core.Exec.{Result, ok, err}
use wms_core.Documents.Document.{◌and_then◌}
use wms_core.Documents.Repo.{◌then_with◌}

module _ {A B : Type 0} where
  pub then_ok :
      (r : Result A) (f : A → Result B) (b : B)
      → (r then_with f) ≡ ok b
      → (a : A) × (r ≡ ok a) × (f a ≡ ok b)
  then_ok (ok a) f b h = (a, refl, h)
  then_ok (err e) f b h = absurd cc

module _ {B : Type 0} where
  pub and_ok :
      (r : Result (Unit {0})) (k : Result B) (b : B)
      → (r and_then k) ≡ ok b
      → (r ≡ ok tt) × (k ≡ ok b)
  and_ok (ok _) k b h = (refl, h)
  and_ok (err e) k b h = absurd cc

pub unwrap : {A : Type 0} {a b : A} → ok a ≡ ok b → a ≡ b
unwrap h = cc
