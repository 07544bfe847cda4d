-- ===== src/Documents/Document/Items.antt =====
-- The lines of a document: what adding and removing one do.
use wms_core.Base.{
  ==_self, ◌≡◌, refl, ap, true, none, is_some, List, [], ◌∷◌, ◌++◌, arith, Bool-cases, Option-cases,
  inl, inr, find,
}
use wms_core.Base.Tables.{find-append_none}
use mathlib.Core.Path.{subst}
use wms_core.Exec.{ok, ◌>>=◌}
use wms_core.Documents.Document.{
  Document, DocumentProduct, is_draft, of_product, pop_product, add_item, remove_item,
}

pop-append :
    (item : DocumentProduct) (items : List DocumentProduct)
    → find (of_product item.product_id) items ≡ none
    → pop_product item.product_id (items ++ item ∷ []) ≡ items
unfolding pop_product find
pop-append item [] h = rw (==_self item.product_id) refl
pop-append item (x ∷ items) h = elim (Bool-cases (of_product item.product_id x)) [
  | inl e ↦ absurd (ground (arith, e))
  | inr e ↦ rw e (ap (λ xs. x ∷ xs) (pop-append item items (rw e at h)))
]

found-append :
    (item : DocumentProduct) (items : List DocumentProduct)
    → find (of_product item.product_id) items ≡ none
    → is_some (find (of_product item.product_id) (items ++ item ∷ [])) ≡ true
unfolding find
found-append item items h =
    rw (find-append_none (of_product item.product_id) items (item ∷ []) h, ==_self item.product_id)
      refl

-- A line that `add_item` adds is taken off again by `remove_item`, which gives the document back as it
-- was.
pub remove_item-add_item :
    (item : DocumentProduct) (d d' : Document)
    → add_item item d ≡ (ok tt, d')
    → remove_item item.product_id d' ≡ (ok tt, d)
unfolding add_item remove_item ◌>>=◌
remove_item-add_item item d d' h = elim (Bool-cases (is_draft d.status)) [
  | inl e ↦ elim (Option-cases (find (of_product item.product_id) d.items)) [
    | inl f ↦
        subst (λ x. remove_item item.product_id x ≡ (ok tt, d))
          (ap (λ r. r.1) (rw f at (rw e at h)))
          (rw e (rw (found-append item d.items f) (rw (pop-append item d.items f) refl)))
    | inr (x, f) ↦ absurd (ground (arith, e, f))
  ]
  | inr e ↦ absurd (ground (arith, e))
]
