-- ===== src/Documents/Service/Confirmed.antt =====
-- The confirmed lines of `confirm_execution` are those of its payload.
use wms_core.Base.{ℕ, ℤ, ◌≡◌, ap, Option, none, some, List, [], ◌∷◌, ◌⊎◌, inl, inr, All}
use wms_core.Base.Tables.{All-map}
use mathlib.Core.Path.{subst}
use wms_core.Exec.{ok}
use wms_core.Documents.Document.{Document, DocumentProduct}
use wms_core.Documents.Results.{then_ok, and_ok, unwrap}
use wms_core.Documents.Service.Execute.{
  ItemConfirmation, Executed, fields_of, check_executed, check_all, validate_execution,
}
use wms_core.Documents.Service.Bounds.{validated-parts}

-- The payload has a dictionary with this product and this quantity.
abbrev pub Confirms : List ItemConfirmation → ℕ → ℤ → Type 0
Confirms [] id quantity = ⊥
Confirms (c ∷ cs) id quantity =
    ((c.product_id ≡ some id) × (c.quantity ≡ some quantity)) ⊎ Confirms cs id quantity

fields_of-ok :
    (id : Option ℕ) (quantity : Option ℤ) (e : Executed)
    → fields_of id quantity ≡ ok e
    → (id ≡ some e.product_id) × (quantity ≡ some e.quantity)
fields_of-ok none quantity e h = absurd cc
fields_of-ok (some id) none e h = absurd cc
fields_of-ok (some id) (some quantity) e h =
    (ap (λ x. some x.product_id) (unwrap h), ap (λ x. some x.quantity) (unwrap h))

abbrev AreConfirmed : List ItemConfirmation → List Executed → Type 0
AreConfirmed cs es = All (λ e. Confirms cs e.product_id e.quantity) es

check_all-AreConfirmed :
    (items : List DocumentProduct) (seen : List ℕ) (cs : List ItemConfirmation) (es : List Executed)
    → check_all items seen cs ≡ ok es
    → AreConfirmed cs es
unfolding check_all
check_all-AreConfirmed items seen [] es h = subst (AreConfirmed []) (unwrap h) tt
check_all-AreConfirmed items seen (c ∷ rest) es h =
    let (e, fields, checked) = then_ok (fields_of c.product_id c.quantity) _ es h in
    let (_, later) = and_ok (check_executed items seen e) _ es checked in
    let (es', found, whole) = then_ok (check_all items (e.product_id ∷ seen) rest) _ es later in
    subst (AreConfirmed (c ∷ rest)) (unwrap whole) (
      inl (fields_of-ok c.product_id c.quantity e fields),
      All-map _ _ es' (λ x k. inr k)
          (check_all-AreConfirmed items (e.product_id ∷ seen) rest es' found),
    )

pub validated-AreConfirmed :
    (d : Document) (cs : List ItemConfirmation) (es : List Executed)
    → validate_execution d cs ≡ ok es
    → All (λ e. Confirms cs e.product_id e.quantity) es
validated-AreConfirmed d cs es h =
    check_all-AreConfirmed d.items [] cs es (validated-parts d cs es h).1
