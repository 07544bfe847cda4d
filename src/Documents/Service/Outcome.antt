-- ===== src/Documents/Service/Outcome.antt =====
-- The lines of a document after `confirm_execution`.
use wms_core.Base.{
  ℕ, String, ==_iff, ==_self, ℤ, pos, ◌-ℤ◌, ◌≤ℤ◌, ◌≡◌, refl, sym, ap, ◌∙◌, Bool, true, Option, none,
  some, List, [], ◌∷◌, map, arith, if◌then◌else◌, Bool-cases, Option-cases, ◌⊎◌, inl, inr, All,
}
use wms_core.Base.Tables.{All-map}
use mathlib.Core.Option
use mathlib.Core.Path.{subst}
use wms_core.Exec.{Error, ok, pure, lift, raise_if, ◌>>=◌, ◌>>◌}
use wms_core.Documents.Types.{DocumentStatus}
use wms_core.Documents.Repo.{Session, Action}
use wms_core.Documents.Service.Lifecycle.{get_document}
use wms_core.Documents.Results
use wms_core.Documents.Service.Transitions.{bind-ok}
use wms_core.Documents.Service.Gives.{Gives, Gives-bind, Gives-lift, Gives-pure}
use wms_core.Documents.Document.{Document, DocumentProduct, ExecutionStatus, of_product}
use wms_core.Documents.Service.Confirmed.{Confirms, validated-AreConfirmed}
use wms_core.Documents.Service.Execute.{
  ItemConfirmation, Executed, executed, member, ids_of, find_last, limit_of, execute_line,
  update_last, execute_all, validate_execution, confirm_execution,
}
use wms_core.Documents.Service.Bounds.{IsConfirmed, accepted_execution_is_complete_and_bounded}

-- No product stands on two lines.
abbrev pub Distinct : List DocumentProduct → Type 0
Distinct [] = Unit
Distinct (x ∷ xs) = (find_last x.product_id xs ≡ none) × Distinct xs

-- A line that was executed with a confirmed quantity within its bounds.
pub record IsExecuted (confirms : ℕ → ℤ → Type 0) (item : DocumentProduct) : Type 0 where
  pub has_status : item.execution_status ≡ some ExecutionStatus.executed
  pub quantity : ℤ
  pub is_quantity : item.executed_qty ≡ some quantity
  pub is_confirmed : confirms item.product_id quantity
  pub is_positive : pos 0 ≤ℤ quantity
  pub is_bounded : quantity ≤ℤ limit_of item
  pub is_difference : item.difference_qty ≡ item.requested_qty -ℤ quantity

-- A write to the lines of a product.
abbrev written : Executed → DocumentProduct → DocumentProduct
written e x = if of_product e.product_id x then execute_line e.quantity x else x

written-id : (e : Executed) (x : DocumentProduct) → (written e x).product_id ≡ x.product_id
written-id e x = ground arith

written-limit : (e : Executed) (x : DocumentProduct) → limit_of (written e x) ≡ limit_of x
written-limit e x = elim (Bool-cases (of_product e.product_id x)) [
  | inl u ↦ rw u refl
  | inr u ↦ rw u refl
]

unwrap : {a b : DocumentProduct} → some a ≡ some b → a ≡ b
unwrap h = cc

find_last-map :
    (e : Executed) (k : ℕ) (xs : List DocumentProduct)
    → find_last k (map (written e) xs) ≡ Option.map (written e) (find_last k xs)
unfolding find_last
find_last-map e k [] = refl
find_last-map e k (x ∷ xs) = ground (arith, find_last-map e k xs, written-id e x)

map-written-none :
    (e : Executed) (xs : List DocumentProduct)
    → find_last e.product_id xs ≡ none
    → map (written e) xs ≡ xs
unfolding find_last
map-written-none e [] h = refl
map-written-none e (x ∷ xs) h = ground (arith, map-written-none e xs)

none-some : {y : DocumentProduct} → none ≡ some y → ⊥
none-some h = absurd cc

update_last-map :
    (e : Executed) (xs : List DocumentProduct)
    → Distinct xs
    → update_last e.product_id (execute_line e.quantity) xs ≡ map (written e) xs
unfolding update_last
update_last-map e [] d = refl
update_last-map e (x ∷ xs) d = elim (Option-cases (find_last e.product_id xs)) [
  | inl h ↦ rw h (elim (Bool-cases (of_product e.product_id x)) [
    | inl u ↦ rw (u, map-written-none e xs h) refl
    | inr u ↦ rw (u, map-written-none e xs h) refl
  ])
  | inr (y, h) ↦ rw h (elim (Bool-cases (of_product e.product_id x)) [
    | inl u ↦ absurd (apart y h ((==_iff x.product_id e.product_id).0 u))
    | inr u ↦ rw (u, update_last-map e xs d.1) refl
  ])
]
  where
    apart :
        (y : DocumentProduct) → find_last e.product_id xs ≡ some y → x.product_id ≡ e.product_id → ⊥
    apart y h same = none-some (sym (d.0) ∙ ap (λ k. find_last k xs) same ∙ h)

-- Each line is the one that its product names.
found_self :
    (xs : List DocumentProduct) → Distinct xs → All (λ x. find_last x.product_id xs ≡ some x) xs
unfolding find_last
found_self [] d = tt
found_self (x ∷ xs) d =
    (rw (d.0, ==_self x.product_id) refl, All-map _ _ xs (λ y h. rw h refl) (found_self xs d.1))

Distinct-map :
    (e : Executed) (xs : List DocumentProduct) → Distinct xs → Distinct (map (written e) xs)
Distinct-map e [] d = tt
Distinct-map e (x ∷ xs) d =
    (rw (written-id e x, find_last-map e x.product_id xs, d.0) refl, Distinct-map e xs d.1)

Confirmed-map :
    (e e' : Executed) (xs : List DocumentProduct)
    → IsConfirmed xs e'
    → IsConfirmed (map (written e) xs) e'
Confirmed-map e e' xs c = record {
  item = written e c.item;
  is_of = rw (find_last-map e e'.product_id xs, c.is_of) refl;
  is_positive = c.is_positive;
  is_bounded = subst (λ l. e'.quantity ≤ℤ l) (sym (written-limit e c.item)) c.is_bounded;
}

module _ (confirms : ℕ → ℤ → Type 0) where
  -- The lines that are still to be confirmed, and those that are executed.
  abbrev Due : List Executed → DocumentProduct → Type 0
  Due es x = (member x.product_id (ids_of es) ≡ true) ⊎ IsExecuted confirms x

  written-IsExecuted :
      (e : Executed) (x : DocumentProduct)
      → e.quantity ≤ℤ limit_of x
      → pos 0 ≤ℤ e.quantity
      → confirms x.product_id e.quantity
      → IsExecuted confirms (execute_line e.quantity x)
  written-IsExecuted e x bounded positive named = record {
    has_status = refl;
    is_confirmed = named;
    quantity = e.quantity;
    is_quantity = refl;
    is_positive = positive;
    is_bounded = bounded;
    is_difference = refl;
  }

  written-Due :
      (e : Executed) (es : List Executed) (items : List DocumentProduct) (x : DocumentProduct)
      → IsConfirmed items e
      → confirms e.product_id e.quantity
      → find_last x.product_id items ≡ some x
      → Due (e ∷ es) x
      → Due es (written e x)
  unfolding member
  written-Due e es items x c named found due = elim (Bool-cases (of_product e.product_id x)) [
    | inl u ↦ rw u (
        inr (
          written-IsExecuted e x
            (subst (λ y. e.quantity ≤ℤ limit_of y) (same ((==_iff x.product_id e.product_id).0 u))
              c.is_bounded)
            c.is_positive
            (subst (λ k. confirms k e.quantity) (sym ((==_iff x.product_id e.product_id).0 u))
              named)))
    | inr u ↦ rw u (elim due [ inl m ↦ inl (ground (arith, m, u)) | inr done ↦ inr done ])
  ]
    where
      same : x.product_id ≡ e.product_id → c.item ≡ x
      same k = unwrap (sym c.is_of ∙ ap (λ p. find_last p items) (sym k) ∙ found)

All-written :
    (P Q : DocumentProduct → Type 0) (e : Executed) (xs : List DocumentProduct)
    → ((x : DocumentProduct) → P x → Q (written e x))
    → All P xs
    → All Q (map (written e) xs)
All-written P Q e [] step h = tt
All-written P Q e (x ∷ xs) step h = (step x h.0, All-written P Q e xs step h.1)

All-both :
    (P Q : DocumentProduct → Type 0) (xs : List DocumentProduct)
    → All P xs
    → All Q xs
    → All (λ x. P x × Q x) xs
All-both P Q [] p q = tt
All-both P Q (x ∷ xs) p q = ((p.0, q.0), All-both P Q xs p.1 q.1)

All-Confirmed :
    (e : Executed) (items : List DocumentProduct) (es : List Executed)
    → All (IsConfirmed items) es
    → All (IsConfirmed (map (written e) items)) es
All-Confirmed e items [] h = tt
All-Confirmed e items (e' ∷ es) h = (Confirmed-map e e' items h.0, All-Confirmed e items es h.1)

execute_all-IsExecuted :
    (confirms : ℕ → ℤ → Type 0) (es : List Executed) (items : List DocumentProduct)
    → Distinct items
    → All (IsConfirmed items) es
    → All (λ e. confirms e.product_id e.quantity) es
    → All (Due confirms es) items
    → All (IsExecuted confirms) (execute_all es items)
unfolding execute_all member
execute_all-IsExecuted confirms [] items d c named due =
    All-map (Due confirms []) (IsExecuted confirms) items
      (λ x h. elim h [ inl m ↦ absurd cc | inr done ↦ done ]) due
execute_all-IsExecuted confirms (e ∷ es) items d c named due = rw (update_last-map e items d) (
    execute_all-IsExecuted confirms es (map (written e) items) (Distinct-map e items d)
      (All-Confirmed e items es c.1) named.1
      (All-written _ (Due confirms es) e items
        (λ x h. written-Due confirms e es items x c.0 named.0 h.0 h.1)
        (All-both (λ x. find_last x.product_id items ≡ some x) (Due confirms (e ∷ es)) items
          (found_self items d) due)))

executed-IsExecuted :
    (d : Document) (cs : List ItemConfirmation) (es : List Executed)
    → Distinct d.items
    → validate_execution d cs ≡ ok es
    → All (IsExecuted (Confirms cs)) (executed es d).items
executed-IsExecuted d cs es distinct h =
    let (_, confirmed, _, complete) = accepted_execution_is_complete_and_bounded d cs es h in
    execute_all-IsExecuted (Confirms cs) es d.items distinct confirmed
      (validated-AreConfirmed d cs es h)
      (All-map _ (Due (Confirms cs) es) d.items (λ x m. inl m) complete)

-- What the document and its lines are after the execution.
abbrev AreExecuted : List ItemConfirmation → Document → Type 0
AreExecuted cs d = All (IsExecuted (Confirms cs)) d.items × (d.status ≡ DocumentStatus.executed)

validated-Gives :
    (d : Document) (cs : List ItemConfirmation) (b : Bool) (e : Error)
    (save publish : List Executed → Action (Unit {0}))
    → Distinct d.items
    → Gives (AreExecuted cs) (
        raise_if b e
        >> (lift (validate_execution d cs) >>= λ es.
            save es >> (publish es >> pure (executed es d))))
validated-Gives d cs b e save publish distinct = Gives-bind _ _ _ (λ _.
    Gives-lift _ _ _ (λ es valid. Gives-bind _ _ _ (λ _.
      Gives-bind _ _ _ (λ _. Gives-pure _ _ (executed-IsExecuted d cs es distinct valid, refl)))))

-- Where `confirm_execution` returns, and no product stands on two lines of the document that it read,
-- the document returned is executed and so is each of its lines: the line has the status EXECUTED and
-- holds as executed quantity the one that the payload confirms for its product, which is from zero to
-- the larger of what the line requested and what is reserved for it, and the difference of that
-- quantity to what it requested.
pub confirm_execution_executes_every_line :
    (id : ℕ) (cs : List ItemConfirmation) (r : Option String) (s : Session) (d d' : Document)
    → (get_document id s).0 ≡ ok d
    → Distinct d.items
    → (confirm_execution id cs r s).0 ≡ ok d'
    → All (IsExecuted (Confirms cs)) d'.items × (d'.status ≡ DocumentStatus.executed)
unfolding confirm_execution
confirm_execution_executes_every_line id cs r s d d' read distinct h =
    let (d0, read0, rest) = bind-ok (get_document id) _ s d' h in
    let is_read : d ≡ d0 = Results.unwrap (sym read ∙ read0) in
    (validated-Gives d0 cs _ _ _ _ (subst (λ x. Distinct x.items) is_read distinct)).at _ d' rest
