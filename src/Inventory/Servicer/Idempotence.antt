-- ===== src/Inventory/Servicer/Idempotence.antt =====
-- A message that the broker delivers again.
use wms_core.Base.{
  ℕ, ◌≡◌, refl, ap, sym, Bool, true, false, Option, none, some, String, str_eq, List, arith,
  Bool-cases, inl, inr,
}
use mathlib.Core.Path.{subst}
use wms_core.Exec.{Result, ok, err, ◌>>=◌, raise}
use wms_core.Inventory.Rows.{Movement}
use wms_core.Inventory.Session.{Session}
use wms_core.Inventory.Reservations.{truthy}
use wms_core.Inventory.Ledger.{has_movement_event}
use wms_core.Inventory.Service.Move.{apply_named, apply_document_movement}
use wms_core.Inventory.Service.Move.Recorded.{apply_named-cases, apply_named-again}
use wms_core.Inventory.Servicer.{Store, Request, open_session, close_session, run, handle}

truthy-named : (text : Option String) (e : String) → truthy text ≡ some e → str_eq e "" ≡ false
truthy-named none e h = absurd cc
truthy-named (some t) e h = elim (Bool-cases (str_eq t "")) [
  | inl u ↦ absurd (ground arith)
  | inr u ↦ ground arith
]

module _ (next_id : List ℕ → ℕ) where
  again :
      (e : Option String) (m : Movement) (b : Bool) (st : Store) (t : Session)
      → truthy m.event_id ≡ e
      → apply_named next_id e m (open_session st) ≡ (ok b, t)
      → apply_named next_id e m (open_session (close_session t))
        ≡ (ok false, open_session (close_session t))
  unfolding apply_named has_movement_event raise
  again none m b st t e h = absurd cc
  again (some e) m b st t name h =
      elim (apply_named-cases next_id e m b (open_session st) t (truthy-named m.event_id e name)
        h) [
          | inl stored ↦ apply_named-again next_id e m _ stored
          | inr (seen, same) ↦ apply_named-again next_id e m _ (
              subst (λ x. has_movement_event e (open_session (close_session x)) ≡ true) (sym same)
                seen)
        ]

  -- A movement message that was applied, or was found applied, and comes again is answered as a
  -- success and changes neither the database nor what has been published.
  pub redelivered_movement_is_ignored :
      (m : Movement) (st st' : Store) (id : ℕ)
      → handle next_id (Request.movement m) st ≡ (record { success = true; id = id }, st')
      → handle next_id (Request.movement m) st' ≡ (record { success = true; id = 0 }, st')
  unfolding handle run ◌>>=◌ apply_document_movement
  redelivered_movement_is_ignored m st st' id h =
      go (apply_named next_id (truthy m.event_id) m (open_session st)) refl
    where
      go :
          (r : Result Bool × Session)
          → apply_named next_id (truthy m.event_id) m (open_session st) ≡ r
          → handle next_id (Request.movement m) st' ≡ (record { success = true; id = 0 }, st')
      go (err e, t) k = absurd (ground (arith, k))
      go (ok b, t) k =
          subst
            (λ x. handle next_id (Request.movement m) x ≡ (record { success = true; id = 0 }, x))
            (ap (λ r. r.1) (rw k at h)) (rw (again (truthy m.event_id) m b st t refl k) refl)
