-- ===== src/Inventory/Service/Move/Conservation.antt =====
-- A whole document movement: the lines, what it records, and the commit.
use wms_core.Base.{
  ℕ, ℤ, int_laws, +ℤ-zero, ◌≡◌, refl, sym, ap, ◌∙◌, Bool, true, Option, none, some, String, List,
  [], ◌∷◌, ◌++◌, map, arith, Bool-cases, Option-cases, inl, inr, append-nil, is_nil,
}
use mathlib.Core.Path.{subst}
use wms_core.Exec.{ok, Exec, pure, ◌>>=◌, ◌>>◌, for_each}
use wms_core.Exec.Ensures.{Ensures, Ensures-bind, Ensures-lift}
use wms_core.Inventory.Rows.{MovementItem, Movement, MovementPayload, InventoryEvent, Transaction}
use wms_core.Inventory.Session.{Session, commit, flush, publish, constraints, merge, no_rows}
use wms_core.Inventory.Reservations.{truthy}
use wms_core.Inventory.Ledger.{
  TransactionEntry, record_movement_event, has_movement_event, find_by_truthy_key,
}
use wms_core.Inventory.Ledger
use wms_core.Inventory.Service.Record
use wms_core.Inventory.Service.Record.{record_movement}
use wms_core.Inventory.Totals.{
  total, allocated, total_of, allocated_of, Changes, nothing, Changes-trans,
}
use wms_core.Inventory.Service.Move.{move_checked, apply_new, apply_named, apply_document_movement}
use wms_core.Inventory.Service.Move.Books.{
  stock_delta, total_delta, summed, line, move_item-Ensures,
}

same :
    (s t : Session)
    → t.rows.warehouse_inventory ++ t.new.warehouse_inventory
      ≡ s.rows.warehouse_inventory ++ s.new.warehouse_inventory
    → t.rows.inventory ++ t.new.inventory ≡ s.rows.inventory ++ s.new.inventory
    → Changes nothing nothing s t
same s t e f = record {
  of_stock = λ q. ap (allocated q) e ∙ sym (+ℤ-zero (allocated_of q s));
  of_total = λ q. ap (total q) f ∙ sym (+ℤ-zero (total_of q s));
}

flush-Ensures : Ensures (Changes nothing nothing) flush
unfolding flush
flush-Ensures = record { at = λ s a h. go s a h }
  where
    go : (s : Session) (a : Unit {0}) → (flush s).0 ≡ ok a → Changes nothing nothing s (flush s).1
    go s a h = elim (Bool-cases (constraints (merge s.rows s.new))) [
      | inl t ↦ rw t (same s _ (append-nil _) (append-nil _))
      | inr t ↦ absurd (ground arith)
    ]

unchanged : (s : Session) → Changes nothing nothing s s
unchanged s = same s s refl refl

join :
    {f g : ℕ → ℤ} (s t u : Session)
    → Changes f g s t
    → Changes nothing nothing t u
    → Changes f g s u
join s t u a b = record {
  of_stock = λ q. grind (int_laws, a.of_stock q, b.of_stock q);
  of_total = λ q. grind (int_laws, a.of_total q, b.of_total q);
}

record_movement-Ensures :
    (e : Option String) (d : Option ℕ) (p : MovementPayload)
    → Ensures (Changes nothing nothing) (record_movement e d p)
unfolding record_movement ◌>>=◌ record_movement_event
record_movement-Ensures e d p = elim (Option-cases (truthy e)) [
  | inl t ↦ rw (record_movement, t) (record { at = λ s a h. unchanged s })
  | inr (k, t) ↦
      rw (record_movement, t)
        (record {
          at = λ s a h. elim (Bool-cases (has_movement_event k s)) [
            | inl u ↦ rw u (unchanged s)
            | inr u ↦ rw u (same s _ refl refl)
          ];
        })
]

pure-Ensures : {A : Type 0} (a : A) → Ensures (Changes nothing nothing) (pure a)
unfolding pure
pure-Ensures a = record { at = λ s b h. unchanged s }

flush-pure-Ensures : (t : Transaction) → Ensures (Changes nothing nothing) (flush >> pure t)
flush-pure-Ensures t = Ensures-bind _ _ join flush-Ensures (λ _. pure-Ensures t)

-- What stands after a commit.
abbrev pub IsCommitted : Session → Type 0
IsCommitted t = (t.committed ≡ t.rows) × (t.new ≡ no_rows)

finish-Ensures :
    (event : InventoryEvent)
    → Ensures
        (λ s t. Changes nothing nothing s t × IsCommitted t)
        (commit >> (publish event >> pure true))
unfolding commit flush ◌>>=◌
finish-Ensures event = record { at = λ s a h. go s a h }
  where
    go :
        (s : Session) (a : Bool)
        → ((commit >> (publish event >> pure true)) s).0 ≡ ok a
        → Changes nothing nothing s ((commit >> (publish event >> pure true)) s).1
          × IsCommitted ((commit >> (publish event >> pure true)) s).1
    go s a h = elim (Bool-cases (constraints (merge s.rows s.new))) [
      | inl t ↦ elim (Bool-cases (s.takes s.published event)) [
        | inl u ↦ rw (t, u) (same s _ (append-nil _) (append-nil _), (refl, refl))
        | inr u ↦ rw (t, u) (same s _ (append-nil _) (append-nil _), (refl, refl))
      ]
      | inr t ↦ absurd (ground arith)
    ]

module _ (next_id : List ℕ → ℕ) where
  written :
      (e : TransactionEntry)
      → Ensures (Changes nothing nothing) (Ledger.write_transaction next_id e)
  unfolding Ledger.write_transaction ◌>>=◌
  written e = record { at = λ s a h. go s a h }
    where
      go :
          (s : Session) (a : Transaction)
          → (Ledger.write_transaction next_id e s).0 ≡ ok a
          → Changes nothing nothing s (Ledger.write_transaction next_id e s).1
      go s a h = elim (Option-cases (find_by_truthy_key (truthy e.idempotency_key) s)) [
        | inl t ↦
            let tx : Transaction =
              Ledger.transaction_of e (next_id (map (λ t. t.id) s.rows.inventory_transactions)) in
            let s' : Session = Ledger.insert_transaction tx s in
            rw t (join s s' _ (same s s' refl refl) ((flush-pure-Ensures tx).at s' a (rw t at h)))
        | inr (old, t) ↦ rw t (unchanged s)
      ]

  write_transaction-Ensures :
      (e : TransactionEntry)
      → Ensures (Changes nothing nothing) (Record.write_transaction next_id e)
  unfolding Record.write_transaction
  write_transaction-Ensures e = Ensures-bind _ _ join (written e) (λ tx.
      Ensures-bind {Q = Changes nothing nothing} _ _ join
        (record { at = λ s a h. same s _ refl refl }) (λ _. pure-Ensures tx))

for_each-Ensures :
    {A X : Type 0} (f g : X → ℕ → ℤ) (body : X → Exec Session A) (xs : List X)
    → ((x : X) → Ensures (Changes (f x) (g x)) (body x))
    → Ensures (Changes (summed f xs) (summed g xs)) (for_each xs body)
unfolding for_each pure summed
for_each-Ensures f g body [] each = record { at = λ s a h. unchanged s }
for_each-Ensures f g body (x ∷ xs) each =
    Ensures-bind _ _ Changes-trans (each x) (λ _. for_each-Ensures f g body xs each)

for_each_unchanged :
    {A X : Type 0} (body : X → Exec Session A) (xs : List X)
    → ((x : X) → Ensures (Changes nothing nothing) (body x))
    → Ensures (Changes nothing nothing) (for_each xs body)
unfolding for_each
for_each_unchanged body [] each = pure-Ensures tt
for_each_unchanged body (x ∷ xs) each =
    Ensures-bind _ _ join (each x) (λ _. for_each_unchanged body xs each)

move_checked-Ensures :
    (m : Movement) (i : MovementItem)
    → Ensures
        (Changes (line (stock_delta m.doc_type) i) (line (total_delta m.doc_type) i))
        (move_checked m i)
unfolding move_checked
move_checked-Ensures m i = Ensures-lift _ _ (λ _. move_item-Ensures m m.doc_type i)

-- What a movement does to the stock and to the total.
abbrev pub stock_change : Movement → ℕ → ℤ
stock_change m = summed (line (stock_delta m.doc_type)) m.items

abbrev pub total_change : Movement → ℕ → ℤ
total_change m = summed (line (total_delta m.doc_type)) m.items

module _ (next_id : List ℕ → ℕ) where
  apply_new-Ensures :
      (e : String) (m : Movement)
      → Ensures
          (λ s t. Changes (stock_change m) (total_change m) s t × IsCommitted t)
          (apply_new next_id e m)
  unfolding apply_new
  apply_new-Ensures e m =
      Ensures-bind _ _ finish
        (for_each-Ensures _ _ (move_checked m) m.items (move_checked-Ensures m))
        (λ _.
          Ensures-bind _ _ finish
            (record_movement-Ensures (some e) m.document_id
              (MovementPayload.inventory_movement_applied m))
            (λ _.
              Ensures-bind _ _ finish
                (for_each_unchanged _ m.items (λ i. write_transaction-Ensures next_id _))
                (λ _. finish-Ensures _)))
    where
      finish :
          {f g : ℕ → ℤ} (s t u : Session)
          → Changes f g s t
          → Changes nothing nothing t u × IsCommitted u
          → Changes f g s u × IsCommitted u
      finish s t u a b = (join s t u a b.0, b.1)

  result :
      (e : String) (m : Movement) (s s' : Session)
      → apply_new next_id e m s ≡ (ok true, s')
      → Changes (stock_change m) (total_change m) s s' × IsCommitted s'
  result e m s s' k =
      subst (λ x. Changes (stock_change m) (total_change m) s x × IsCommitted x) (ap (λ r. r.1) k)
        ((apply_new-Ensures e m).at s true (ap (λ r. r.0) k))

  apply_named-Ensures :
      (e : Option String) (m : Movement) (s s' : Session)
      → apply_named next_id e m s ≡ (ok true, s')
      → Changes (stock_change m) (total_change m) s s' × IsCommitted s'
  unfolding apply_named ◌>>=◌
  apply_named-Ensures none m s s' h = absurd cc
  apply_named-Ensures (some e) m s s' h = elim (Bool-cases (has_movement_event e s)) [
    | inl t ↦ absurd (ground arith)
    | inr t ↦ elim (Bool-cases (is_nil m.items)) [
      | inl u ↦ absurd (ground arith)
      | inr u ↦ result e m s s' (rw u at (rw t at h))
    ]
  ]

  pub apply_document_movement-Ensures :
      (m : Movement) (s s' : Session)
      → apply_document_movement next_id m s ≡ (ok true, s')
      → Changes (stock_change m) (total_change m) s s' × IsCommitted s'
  unfolding apply_document_movement
  apply_document_movement-Ensures m = apply_named-Ensures (truthy m.event_id) m
