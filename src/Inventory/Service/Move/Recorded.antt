-- ===== src/Inventory/Service/Move/Recorded.antt =====
-- That an applied movement stands in the movement ledger.
use wms_core.Base.{
  ℕ, ◌≡◌, refl, ap, sym, Bool, true, false, Option, some, String, str_eq, List, [], ◌∷◌, ◌++◌,
  arith, Bool-cases, Option-cases, ◌⊎◌, inl, inr, append-nil, is_nil, find, is_some, map,
}
use wms_core.Base.Tables.{is_some-find-append, is_some-find-append_right}
use mathlib.Core.Path.{subst}
use text.Mathlib.TextEquality.{eq_iff}
use wms_core.Exec.{ok, pure, ◌>>=◌, ◌>>◌, for_each}
use wms_core.Exec.Ensures.{Ensures, Ensures-bind}
use wms_core.Inventory.Rows.{
  Movement, MovementPayload, InventoryEvent, MovementLedgerRow, Transaction,
}
use wms_core.Inventory.Session.{Session, commit, flush, publish, constraints, merge}
use wms_core.Inventory.Reservations.{truthy}
use wms_core.Inventory.Ledger.{
  TransactionEntry, record_movement_event, has_movement_event, find_by_truthy_key, with_event_id,
}
use wms_core.Inventory.Ledger
use wms_core.Inventory.Service.Record
use wms_core.Inventory.Service.Record.{record_movement}
use wms_core.Inventory.Service.Move.{apply_new, apply_named, movement_entry}

-- The event is in the ledger, flushed or not.
abbrev Seen : String → Session → Type 0
Seen e s = is_some (find (with_event_id e) (s.rows.movement_ledger ++ s.new.movement_ledger)) ≡ true

abbrev KeepsSeen : String → Session → Session → Type 0
KeepsSeen e s t = Seen e s → Seen e t

join : (e : String) (s t u : Session) → KeepsSeen e s t → KeepsSeen e t u → KeepsSeen e s u
join e s t u a b h = b (a h)

flush-pure-keeps : (e : String) (a : Transaction) → Ensures (KeepsSeen e) (flush >> pure a)
unfolding flush ◌>>=◌
flush-pure-keeps e a = record { at = λ s b h. go s b h }
  where
    go :
        (s : Session) (b : Transaction)
        → ((flush >> pure a) s).0 ≡ ok b
        → KeepsSeen e s ((flush >> pure a) s).1
    go s b h = elim (Bool-cases (constraints (merge s.rows s.new))) [
      | inl t ↦ rw t (λ k. rw (append-nil (s.rows.movement_ledger ++ s.new.movement_ledger)) k)
      | inr t ↦ absurd (ground arith)
    ]

module _ (next_id : List ℕ → ℕ) where
  written-keeps :
      (e : String) (w : TransactionEntry)
      → Ensures (KeepsSeen e) (Ledger.write_transaction next_id w)
  unfolding Ledger.write_transaction ◌>>=◌
  written-keeps e w = record { at = λ s a h. go s a h }
    where
      go :
          (s : Session) (a : Transaction)
          → (Ledger.write_transaction next_id w s).0 ≡ ok a
          → KeepsSeen e s (Ledger.write_transaction next_id w s).1
      go s a h = elim (Option-cases (find_by_truthy_key (truthy w.idempotency_key) s)) [
        | inl t ↦
            let tx : Transaction =
              Ledger.transaction_of w (next_id (map (λ t. t.id) s.rows.inventory_transactions)) in
            let s' : Session = Ledger.insert_transaction tx s in
            rw t ((flush-pure-keeps e tx).at s' a (rw t at h))
        | inr (old, t) ↦ rw t (λ k. k)
      ]

  write_transaction-keeps :
      (e : String) (w : TransactionEntry)
      → Ensures (KeepsSeen e) (Record.write_transaction next_id w)
  unfolding Record.write_transaction ◌>>=◌
  write_transaction-keeps e w = Ensures-bind _ _ (join e) (written-keeps e w) (λ tx. record {
    at = λ s a h.
        elim (Bool-cases (s.takes s.published (InventoryEvent.inventory_transaction_recorded tx))) [
          | inl u ↦ rw u (λ k. k)
          | inr u ↦ rw u (λ k. k)
        ];
  })

  transactions-keep :
      {X : Type 0} (e : String) (entry : X → TransactionEntry) (xs : List X)
      → Ensures (KeepsSeen e) (for_each xs (λ x. Record.write_transaction next_id (entry x)))
  unfolding for_each pure
  transactions-keep e entry [] = record { at = λ s a h k. k }
  transactions-keep e entry (x ∷ xs) =
      Ensures-bind _ _ (join e) (write_transaction-keeps e (entry x))
        (λ _. transactions-keep e entry xs)

found_self :
    (e : String) (row : MovementLedgerRow)
    → str_eq row.event_id e ≡ true
    → is_some (find (with_event_id e) (row ∷ [])) ≡ true
unfolding find
found_self e row h = rw h refl

record_movement-Seen :
    (e : String) (d : Option ℕ) (p : MovementPayload)
    → str_eq e "" ≡ false
    → Ensures (λ s t. Seen e t) (record_movement (some e) d p)
unfolding record_movement record_movement_event has_movement_event ◌>>=◌
record_movement-Seen e d p named = rw (record_movement, named) (record { at = λ s a h. go s })
  where
    go : (s : Session) → Seen e (record_movement_event e d p s).1
    go s = elim (Bool-cases (has_movement_event e s)) [
      | inl u ↦
          rw u
            (is_some-find-append (with_event_id e) s.rows.movement_ledger s.new.movement_ledger u)
      | inr u ↦ rw u (
          is_some-find-append_right (with_event_id e) s.rows.movement_ledger _ (
            is_some-find-append_right (with_event_id e) s.new.movement_ledger _
              (found_self e _ ((eq_iff e e).1 refl))))
    ]

-- The committed ledger has the event.
abbrev pub Stored : String → Session → Type 0
Stored e s = is_some (find (with_event_id e) s.committed.movement_ledger) ≡ true

finish-Stored :
    (e : String) (event : InventoryEvent)
    → Ensures (λ s t. Seen e s → Stored e t) (commit >> (publish event >> pure true))
unfolding commit flush ◌>>=◌
finish-Stored e event = record { at = λ s a h. go s a h }
  where
    go :
        (s : Session) (a : Bool)
        → ((commit >> (publish event >> pure true)) s).0 ≡ ok a
        → Seen e s
        → Stored e ((commit >> (publish event >> pure true)) s).1
    go s a h = elim (Bool-cases (constraints (merge s.rows s.new))) [
      | inl t ↦ elim (Bool-cases (s.takes s.published event)) [
        | inl u ↦ rw (t, u) (λ k. k)
        | inr u ↦ rw (t, u) (λ k. k)
      ]
      | inr t ↦ absurd (ground arith)
    ]

module _ (next_id : List ℕ → ℕ) where
  apply_new-Stored :
      (e : String) (m : Movement)
      → str_eq e "" ≡ false
      → Ensures (λ s t. Stored e t) (apply_new next_id e m)
  unfolding apply_new
  apply_new-Stored e m named =
      Ensures-bind {R = λ s t. Unit {0}} _ _ (λ s t u a b. b) (record { at = λ s a h. tt })
        (λ _.
          Ensures-bind {Q = λ s t. Seen e s → Stored e t} _ _ (λ s t u a b. b a)
            (record_movement-Seen e m.document_id (MovementPayload.inventory_movement_applied m)
              named)
            (λ _.
              Ensures-bind {Q = λ s t. Seen e s → Stored e t} _ _ (λ s t u a b k. b (a k))
                (transactions-keep next_id e (movement_entry next_id e m) m.items)
                (λ _. finish-Stored e _)))

  -- The first time, the event is stored; any other time, the session is as it was.
  pub apply_named-cases :
      (e : String) (m : Movement) (b : Bool) (s t : Session)
      → str_eq e "" ≡ false
      → apply_named next_id (some e) m s ≡ (ok b, t)
      → Stored e t ⊎ ((has_movement_event e s ≡ true) × (t ≡ s))
  unfolding apply_named ◌>>=◌
  apply_named-cases e m b s t named h = elim (Bool-cases (has_movement_event e s)) [
    | inl u ↦ inr (u, sym (ap (λ r. r.1) (rw u at h)))
    | inr u ↦ elim (Bool-cases (is_nil m.items)) [
      | inl v ↦ absurd (ground arith)
      | inr v ↦
          let k : apply_new next_id e m s ≡ (ok b, t) = rw v at (rw u at h) in
          inl (
            subst (Stored e) (ap (λ r. r.1) k)
              ((apply_new-Stored e m named).at s b (ap (λ r. r.0) k)))
    ]
  ]

  pub apply_named-again :
      (e : String) (m : Movement) (s : Session)
      → has_movement_event e s ≡ true
      → apply_named next_id (some e) m s ≡ (ok false, s)
  unfolding apply_named ◌>>=◌
  apply_named-again e m s h = rw h refl
