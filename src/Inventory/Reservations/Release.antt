-- ===== src/Inventory/Reservations/Release.antt =====
-- A reservation that is released in two steps.
use wms_core.Base.{
  ℕ, ℤ, pos, ◌+ℤ◌, ◌-ℤ◌, ltb_ℤ, leb_ℤ, int_laws, ◌≡◌, refl, ap, ◌∙◌, true, false, Option, none,
  some, arith, Bool-cases, inl, inr,
}
use wms_core.Base.Tables.{find-update_self}
use mathlib.Core.Path.{subst}
use wms_core.Exec.{◌>>=◌}
use wms_core.Inventory.Rows.{Reservation}
use wms_core.Inventory.Session.{Session}
use wms_core.Inventory.Reservations.{
  with_id, get_row, is_closed, int_or, release_row, release_reservation,
}

-- The session after a call.
abbrev released : ℕ → Option ℤ → Session → Session
released id quantity s = (release_reservation id quantity s).1

step :
    (id : ℕ) (quantity : Option ℤ) (s : Session) (r : Reservation)
    → get_row id s ≡ some r
    → is_closed r.status ≡ false
    → leb_ℤ (int_or quantity (r.reserved_qty -ℤ r.released_qty)) (pos 0) ≡ false
    → get_row id (released id quantity s)
      ≡ some (release_row (int_or quantity (r.reserved_qty -ℤ r.released_qty)) r)
unfolding release_reservation ◌>>=◌
step id quantity s r found is_open positive =
    rw (released, found)
      (rw is_open (
        rw positive (
          rw
            (
              find-update_self (with_id id)
                  (release_row (int_or quantity (r.reserved_qty -ℤ r.released_qty)))
                  s.rows.stock_reservations (λ x. refl),
              found,
            )
            refl)))

no_step :
    (id : ℕ) (quantity : Option ℤ) (s : Session) (r : Reservation)
    → get_row id s ≡ some r
    → is_closed r.status ≡ false
    → leb_ℤ (int_or quantity (r.reserved_qty -ℤ r.released_qty)) (pos 0) ≡ true
    → get_row id (released id quantity s) ≡ some r
unfolding release_reservation ◌>>=◌
no_step id quantity s r found is_open positive =
    rw (released, found) (rw is_open (rw positive found))

rest_positive : (a q : ℤ) → ltb_ℤ q a ≡ true → leb_ℤ (a -ℤ q) (pos 0) ≡ false
rest_positive a q h = grind (int_laws, h)

rest_left : (a q : ℤ) → ltb_ℤ q a ≡ true → ltb_ℤ (pos 0) (a -ℤ q) ≡ true
rest_left a q h = grind (int_laws, h)

twice :
    (a l q : ℤ)
    → l ≡ pos 0
    → ltb_ℤ (pos 0) q ≡ true
    → ltb_ℤ (pos 0) (a -ℤ q -ℤ (a -ℤ q -ℤ (l +ℤ q))) ≡ true
twice a l q fresh h = grind (int_laws, fresh, h)

amount : (q d : ℤ) → ltb_ℤ (pos 0) q ≡ true → int_or (some q) d ≡ q
amount q d h = ground arith

not_positive : (q : ℤ) → ltb_ℤ (pos 0) q ≡ true → leb_ℤ q (pos 0) ≡ false
not_positive q h = ground arith

not_closed :
    (r : Reservation) (q : ℤ)
    → is_closed r.status ≡ false
    → ltb_ℤ q r.reserved_qty ≡ true
    → is_closed (release_row q r).status ≡ false
not_closed r q is_open part = rw (rest_positive r.reserved_qty q part) is_open

-- Where a part of a reservation has been released, with nothing released before, a release of all that
-- is left (a quantity of 0 or none) leaves some of it reserved.
pub release_of_the_rest_leaves_some :
    (id : ℕ) (q : ℤ) (s : Session) (r : Reservation)
    → get_row id s ≡ some r
    → is_closed r.status ≡ false
    → r.released_qty ≡ pos 0
    → ltb_ℤ (pos 0) q ≡ true
    → ltb_ℤ q r.reserved_qty ≡ true
    → (left : Reservation) × (get_row id (released id none (released id (some q) s)) ≡ some left)
      × (ltb_ℤ (pos 0) left.reserved_qty ≡ true)
release_of_the_rest_leaves_some id q s r found is_open fresh positive part =
    elim (Bool-cases (leb_ℤ (first.reserved_qty -ℤ first.released_qty) (pos 0))) [
      | inl u ↦ (first, no_step id none _ first once is_open' u, rest_left r.reserved_qty q part)
      | inr u ↦ (
        release_row (first.reserved_qty -ℤ first.released_qty) first,
        step id none _ first once is_open' u,
        twice r.reserved_qty r.released_qty q fresh positive,
      )
    ]
  where
    given : int_or (some q) (r.reserved_qty -ℤ r.released_qty) ≡ q
    given = amount q _ positive

    first : Reservation
    first = release_row q r

    once : get_row id (released id (some q) s) ≡ some first
    once =
        subst (λ x. get_row id (released id (some q) s) ≡ some (release_row x r)) given
          (step id (some q) s r found is_open
            (ap (λ x. leb_ℤ x (pos 0)) given ∙ not_positive q positive))

    is_open' : is_closed first.status ≡ false
    is_open' = not_closed r q is_open part
