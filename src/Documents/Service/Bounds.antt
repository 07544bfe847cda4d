-- ===== src/Documents/Service/Bounds.antt =====
-- What `confirm_execution` lets through.
use wms_core.Base.{
  ℕ, pos, ◌≤ℤ◌, ◌≡◌, ap, ◌∙◌, true, false, ◌&&◌, some, List, [], ◌∷◌, arith, if◌then◌else◌,
  Bool-cases, Option-cases, inl, inr, All, is_nil,
}
use mathlib.Core.Path.{subst}
use wms_core.Exec.{ok, err, validation_error}
use wms_core.Documents.Types.{requires_reason_code}
use wms_core.Documents.Document.{Document, DocumentProduct}
use wms_core.Documents.Results.{then_ok, and_ok, unwrap}
use wms_core.Documents.Service.Execute.{
  ItemConfirmation, Executed, member, find_last, limit_of, check_executed, check_all, none_missing,
  validate_execution, fields_of, ids_of, no_reason,
}

-- A confirmed line is for a line of the document, and its quantity is between zero and the larger of
-- what that line requested and what is reserved for it.
pub record IsConfirmed (items : List DocumentProduct) (e : Executed) : Type 0 where
  pub item : DocumentProduct
  pub is_of : find_last e.product_id items ≡ some item
  pub is_positive : pos 0 ≤ℤ e.quantity
  pub is_bounded : e.quantity ≤ℤ limit_of item

-- No line is for a product seen before.
abbrev pub NoRepeat : List ℕ → List Executed → Type 0
NoRepeat seen [] = Unit
NoRepeat seen (e ∷ es) = (member e.product_id seen ≡ false) × NoRepeat (e.product_id ∷ seen) es

check_executed-ok :
    (items : List DocumentProduct) (seen : List ℕ) (e : Executed)
    → check_executed items seen e ≡ ok tt
    → (member e.product_id seen ≡ false) × IsConfirmed items e
unfolding check_executed
check_executed-ok items seen e h = elim (Bool-cases (member e.product_id seen)) [
  | inl u ↦ absurd (ground (arith, u))
  | inr u ↦ elim (Option-cases (find_last e.product_id items)) [
    | inl v ↦ absurd (ground (arith, v))
    | inr (item, v) ↦ (
      u,
      record { item = item; is_of = v; is_positive = ground arith; is_bounded = ground arith },
    )
  ]
]

none_missing-All :
    (es : List Executed) (items : List DocumentProduct)
    → none_missing es items ≡ true
    → All (λ item. member item.product_id (ids_of es) ≡ true) items
unfolding none_missing
none_missing-All es [] h = tt
none_missing-All es (item ∷ items) h = elim (Bool-cases (member item.product_id (ids_of es))) [
  | inl u ↦ (u, none_missing-All es items (rw u at h))
  | inr u ↦ absurd (ground (arith, u))
]

abbrev Checked : List DocumentProduct → List ℕ → List Executed → Type 0
Checked items seen es = All (IsConfirmed items) es × NoRepeat seen es

check_all-ok :
    (items : List DocumentProduct) (seen : List ℕ) (cs : List ItemConfirmation) (es : List Executed)
    → check_all items seen cs ≡ ok es
    → Checked items seen es
unfolding check_all
check_all-ok items seen [] es h = subst (Checked items seen) (unwrap h) (tt, tt)
check_all-ok items seen (c ∷ rest) es h =
    let (e, _, checked) = then_ok (fields_of c.product_id c.quantity) _ es h in
    let (first, later) = and_ok (check_executed items seen e) _ es checked in
    let (es', found, whole) = then_ok (check_all items (e.product_id ∷ seen) rest) _ es later in
    let (fresh, confirmed) = check_executed-ok items seen e first in
    let (all_confirmed, no_repeat) = check_all-ok items (e.product_id ∷ seen) rest es' found in
    subst (Checked items seen) (unwrap whole) ((confirmed, all_confirmed), (fresh, no_repeat))

-- The three parts of the validation, each passed.
pub validated-parts :
    (d : Document) (cs : List ItemConfirmation) (es : List Executed)
    → validate_execution d cs ≡ ok es
    → ((requires_reason_code d.transaction_type && no_reason d.reason_code) ≡ false)
      × (check_all d.items [] cs ≡ ok es)
      × (none_missing es d.items ≡ true)
unfolding validate_execution
validated-parts d cs es h =
    elim (Bool-cases (requires_reason_code d.transaction_type && no_reason d.reason_code)) [
      | inl u ↦ absurd (ground (arith, u))
      | inr u ↦ elim (Bool-cases (is_nil cs)) [
        | inl v ↦ absurd (ground (arith, v))
        | inr v ↦
            let (es', found, last) = then_ok (check_all d.items [] cs) _ es (rw v at (rw u at h)) in
            let (same, complete) = covered es' last in (u, found ∙ ap ok same, complete)
      ]
    ]
  where
    covered :
        (es' : List Executed)
        → (if none_missing es' d.items then ok es' else err validation_error) ≡ ok es
        → (es' ≡ es) × (none_missing es d.items ≡ true)
    covered es' last = elim (Bool-cases (none_missing es' d.items)) [
      | inl t ↦ (
        unwrap (rw t at last),
        subst (λ x. none_missing x d.items ≡ true) (unwrap (rw t at last)) t,
      )
      | inr t ↦ absurd (ground (arith, t))
    ]

-- What `confirm_execution` accepts: the document has a reason code where its transaction type asks for
-- one, each confirmed line is for a line of the document and within that line's bounds, no product
-- is confirmed twice, and no line of the document goes without a confirmation.
pub accepted_execution_is_complete_and_bounded :
    (d : Document) (cs : List ItemConfirmation) (es : List Executed)
    → validate_execution d cs ≡ ok es
    → ((requires_reason_code d.transaction_type && no_reason d.reason_code) ≡ false)
      × All (IsConfirmed d.items) es
      × NoRepeat [] es
      × All (λ item. member item.product_id (ids_of es) ≡ true) d.items
accepted_execution_is_complete_and_bounded d cs es h =
    let (reason, found, complete) = validated-parts d cs es h in
    let (confirmed, no_repeat) = check_all-ok d.items [] cs es found in
    (reason, confirmed, no_repeat, none_missing-All es d.items complete)
