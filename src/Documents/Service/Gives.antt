-- ===== src/Documents/Service/Gives.antt =====
-- What the methods of the service return, from what they are made of.
use wms_core.Base.{◌≡◌, refl}
use mathlib.Core.Path.{subst}
use wms_core.Exec.{Result, ok, err, pure, lift, continue, ◌>>=◌}
use wms_core.Documents.Repo.{Session, Action}
use wms_core.Documents.Results.{unwrap}

-- What an action returns, where it returns.
pub record Gives {A : Type 0} (P : A → Type 0) (m : Action A) : Type 0 where
  pub at : (s : Session) (a : A) → (m s).0 ≡ ok a → P a

pub Gives-pure : {A : Type 0} (P : A → Type 0) (a : A) → P a → Gives P (pure a)
unfolding pure
Gives-pure P a p = record { at = λ s b h. subst P (unwrap h) p }

module _ {A B : Type 0} (P : B → Type 0) where
  pub Gives-bind : (m : Action A) (f : A → Action B) → ((a : A) → Gives P (f a)) → Gives P (m >>= f)
  unfolding ◌>>=◌
  Gives-bind m f rest = record { at = λ s b h. go b (m s).0 (m s).1 h }
    where
      go : (b : B) (r : Result A) (t : Session) → (continue r f t).0 ≡ ok b → P b
      go b (ok a) t h = (rest a).at t b h
      go b (err e) t h = absurd cc

  pub Gives-lift :
      (r : Result A) (f : A → Action B)
      → ((a : A) → r ≡ ok a → Gives P (f a))
      → Gives P (lift r >>= f)
  unfolding ◌>>=◌
  Gives-lift (ok a) f rest = rest a refl
  Gives-lift (err e) f rest = record { at = λ s b h. absurd cc }
