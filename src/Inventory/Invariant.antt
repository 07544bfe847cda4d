-- ===== src/Inventory/Invariant.antt =====
-- The invariant of the inventory tables, and the writes that keep it.
pub mod Session
pub mod Methods
use wms_core.Base.{
  ℕ, ◌==◌, ==_iff, ℤ, pos, ◌+ℤ◌, ◌-ℤ◌, ◌≤ℤ◌, int_laws, +ℤ-zero, ◌≡◌, refl, sym, ap, ◌∙◌, Bool, true,
  false, ◌&&◌, Option, some, none, List, [], ◌∷◌, ◌++◌, arith, if◌then◌else◌, find, update, sum_by,
  All, is_some, Option-cases, inl, inr,
}
use wms_core.Base.Tables.{
  find-update_self, find-update_ne, is_some-find-update, find_holds, is_some-find-append,
  sum_by-update, sum_by-append, All-append, All-update, All-map, All-find,
}
use wms_core.Inventory.Rows.{WarehouseRow, Reservation}
use wms_core.Inventory.Stock.{stored_at}
use wms_core.Inventory.Reservations.{with_id}

-- The legacy column follows the physical stock.
abbrev pub IsSynced : WarehouseRow → Type 0
IsSynced row = row.quantity ≡ row.physical_qty

-- What was requested is still reserved or has been given back, and what was consumed is counted
-- among what was given back.
abbrev pub IsBalanced : Reservation → Type 0
IsBalanced r =
    (r.requested_qty ≡ r.reserved_qty +ℤ r.released_qty) × (r.consumed_qty ≤ℤ r.released_qty)

-- The reservation's stock has a row.
abbrev pub IsCovered : List WarehouseRow → Reservation → Type 0
IsCovered ws r = is_some (find (stored_at r.product_id r.warehouse_id) ws) ≡ true

abbrev pub for_stock : ℕ → ℕ → Reservation → Bool
for_stock product_id warehouse_id r = r.product_id == product_id && r.warehouse_id == warehouse_id

abbrev reserved_in : ℕ → ℕ → WarehouseRow → ℤ
reserved_in p w row = if stored_at p w row then row.reserved_qty else pos 0

abbrev promised_in : ℕ → ℕ → Reservation → ℤ
promised_in p w r = if for_stock p w r then r.reserved_qty else pos 0

-- What the rows of a product at a warehouse count as reserved.
unfoldable pub reserved_at : ℕ → ℕ → List WarehouseRow → ℤ
unfolding sum_by
reserved_at p w = sum_by (reserved_in p w)

-- What the open reservations of a product at a warehouse hold.
unfoldable pub promised_at : ℕ → ℕ → List Reservation → ℤ
unfolding sum_by
promised_at p w = sum_by (promised_in p w)

pub record IsValid (ws : List WarehouseRow) (rs : List Reservation) : Type 0 where
  pub synced : All IsSynced ws
  pub balanced : All IsBalanced rs
  pub covered : All (IsCovered ws) rs
  pub promised : (p w : ℕ) → reserved_at p w ws ≡ promised_at p w rs

pub IsValid-nil : IsValid [] []
unfolding reserved_at promised_at
IsValid-nil = record { synced = tt; balanced = tt; covered = tt; promised = λ p w. refl }

-- A write that leaves the row where it is.
pub record KeepsPlace (f : WarehouseRow → WarehouseRow) : Type 0 where
  pub product : (x : WarehouseRow) → (f x).product_id ≡ x.product_id
  pub warehouse : (x : WarehouseRow) → (f x).warehouse_id ≡ x.warehouse_id

stored_at-KeepsPlace :
    {f : WarehouseRow → WarehouseRow} (p w : ℕ)
    → KeepsPlace f
    → (x : WarehouseRow) → stored_at p w (f x) ≡ stored_at p w x
stored_at-KeepsPlace p w k x = rw (k.product x, k.warehouse x)

-- The amount that a write to the rows of one place adds at another.
abbrev pub delta_at : ℕ → ℕ → ℕ → ℕ → ℤ → ℤ
delta_at p0 w0 p w d = if p0 == p && w0 == w then d else pos 0

pub reserved_at-update :
    (p0 w0 : ℕ) (f : WarehouseRow → WarehouseRow) (d : ℤ) (r : WarehouseRow)
    (ws : List WarehouseRow) (p w : ℕ)
    → KeepsPlace f
    → find (stored_at p0 w0) ws ≡ some r
    → (f r).reserved_qty ≡ r.reserved_qty +ℤ d
    → reserved_at p w (update (stored_at p0 w0) f ws) ≡ reserved_at p w ws +ℤ delta_at p0 w0 p w d
unfolding reserved_at
reserved_at-update p0 w0 f d r ws p w k found q = grind (
  int_laws,
  sum_by-update (reserved_in p w) (stored_at p0 w0) f r ws found,
  find_holds (stored_at p0 w0) r ws found,
  k.product r,
  k.warehouse r,
)

pub promised_at-update :
    (id : ℕ) (f : Reservation → Reservation) (d : ℤ) (r : Reservation) (rs : List Reservation)
    (p w : ℕ)
    → find (with_id id) rs ≡ some r
    → (f r).product_id ≡ r.product_id
    → (f r).warehouse_id ≡ r.warehouse_id
    → (f r).reserved_qty ≡ r.reserved_qty +ℤ d
    → promised_at p w (update (with_id id) f rs)
      ≡ promised_at p w rs +ℤ delta_at r.product_id r.warehouse_id p w d
unfolding promised_at
promised_at-update id f d r rs p w found kp kw q =
    grind (int_laws, sum_by-update (promised_in p w) (with_id id) f r rs found)

-- A new row with nothing reserved.
pub IsValid-insert_row :
    {ws : List WarehouseRow} {rs : List Reservation} (row : WarehouseRow)
    → IsSynced row
    → row.reserved_qty ≡ pos 0
    → IsValid ws rs
    → IsValid (ws ++ row ∷ []) rs
unfolding reserved_at
IsValid-insert_row {ws} {rs} row synced empty v = record {
  synced = All-append IsSynced ws (row ∷ []) v.synced (synced, tt);
  balanced = v.balanced;
  covered =
      All-map (IsCovered ws) (IsCovered (ws ++ row ∷ [])) rs
        (λ x h. is_some-find-append (stored_at x.product_id x.warehouse_id) ws (row ∷ []) h)
        v.covered;
  promised = λ p w. rw sum_by-append (grind (int_laws, v.promised p w));
}

IsCovered-update :
    (p0 w0 : ℕ) (f : WarehouseRow → WarehouseRow) (ws : List WarehouseRow) (rs : List Reservation)
    → KeepsPlace f
    → All (IsCovered ws) rs
    → All (IsCovered (update (stored_at p0 w0) f ws)) rs
IsCovered-update p0 w0 f ws rs k =
    All-map (IsCovered ws) (IsCovered (update (stored_at p0 w0) f ws)) rs λ x h.
      is_some-find-update (stored_at p0 w0) (stored_at x.product_id x.warehouse_id) f ws
        (stored_at-KeepsPlace x.product_id x.warehouse_id k)
      ∙ h

-- A write to a row that leaves what it has reserved.
pub IsValid-write_row :
    {ws : List WarehouseRow} {rs : List Reservation} (p0 w0 : ℕ) (f : WarehouseRow → WarehouseRow)
    {r : WarehouseRow}
    → KeepsPlace f
    → ((x : WarehouseRow) → IsSynced x → IsSynced (f x))
    → find (stored_at p0 w0) ws ≡ some r
    → (f r).reserved_qty ≡ r.reserved_qty
    → IsValid ws rs
    → IsValid (update (stored_at p0 w0) f ws) rs
IsValid-write_row {ws} {rs} p0 w0 f {r} k sync found same v = record {
  synced = All-update IsSynced (stored_at p0 w0) f ws (λ x _. sync x) v.synced;
  balanced = v.balanced;
  covered = IsCovered-update p0 w0 f ws rs k v.covered;
  promised = λ p w. grind (
    int_laws,
    reserved_at-update p0 w0 f (pos 0) r ws p w k found (same ∙ sym (+ℤ-zero r.reserved_qty)),
    v.promised p w,
  );
}

-- A new reservation, with the same amount added to its stock's row.
pub IsValid-reserve :
    {ws : List WarehouseRow} {rs : List Reservation} (f : WarehouseRow → WarehouseRow)
    {row : WarehouseRow} (r : Reservation)
    → KeepsPlace f
    → ((x : WarehouseRow) → IsSynced x → IsSynced (f x))
    → find (stored_at r.product_id r.warehouse_id) ws ≡ some row
    → (f row).reserved_qty ≡ row.reserved_qty +ℤ r.reserved_qty
    → IsBalanced r
    → IsValid ws rs
    → IsValid (update (stored_at r.product_id r.warehouse_id) f ws) (rs ++ r ∷ [])
unfolding promised_at
IsValid-reserve {ws} {rs} f {row} r k sync found adds balanced v =
    let p0 : ℕ = r.product_id in
    let w0 : ℕ = r.warehouse_id in
    let ws' : List WarehouseRow = update (stored_at p0 w0) f ws in
    record {
      synced = All-update IsSynced (stored_at p0 w0) f ws (λ x _. sync x) v.synced;
      balanced = All-append IsBalanced rs (r ∷ []) v.balanced (balanced, tt);
      covered =
          All-append (IsCovered ws') rs (r ∷ []) (IsCovered-update p0 w0 f ws rs k v.covered) (
            is_some-find-update (stored_at p0 w0) (stored_at p0 w0) f ws
                  (stored_at-KeepsPlace p0 w0 k)
                ∙ ap is_some found,
            tt,
          );
      promised = λ p w. rw sum_by-append (
          grind (
            int_laws,
            reserved_at-update p0 w0 f r.reserved_qty row ws p w k found adds,
            v.promised p w,
          ));
    }

-- An amount taken off a reservation and off its stock's row.
pub IsValid-take :
    {ws : List WarehouseRow} {rs : List Reservation} (id : ℕ) (f : Reservation → Reservation)
    (g : WarehouseRow → WarehouseRow) (d : ℤ) (r : Reservation)
    → find (with_id id) rs ≡ some r
    → ((x : Reservation) → (f x).product_id ≡ x.product_id)
    → ((x : Reservation) → (f x).warehouse_id ≡ x.warehouse_id)
    → ((x : Reservation) → (f x).reserved_qty ≡ x.reserved_qty +ℤ d)
    → ((x : Reservation) → IsBalanced x → IsBalanced (f x))
    → KeepsPlace g
    → ((x : WarehouseRow) → IsSynced x → IsSynced (g x))
    → ((x : WarehouseRow) → (g x).reserved_qty ≡ x.reserved_qty +ℤ d)
    → IsValid ws rs
    → IsValid (update (stored_at r.product_id r.warehouse_id) g ws) (update (with_id id) f rs)
IsValid-take {ws} {rs} id f g d r found kp kw less balanced k sync takes v =
    let p0 : ℕ = r.product_id in
    let w0 : ℕ = r.warehouse_id in
    let ws' : List WarehouseRow = update (stored_at p0 w0) g ws in
    record {
      synced = All-update IsSynced (stored_at p0 w0) g ws (λ x _. sync x) v.synced;
      balanced = All-update IsBalanced (with_id id) f rs (λ x _. balanced x) v.balanced;
      covered =
          All-update (IsCovered ws') (with_id id) f rs (λ x _ h. rw (kp x, kw x) h)
            (IsCovered-update p0 w0 g ws rs k v.covered);
      promised = taken (All-find (IsCovered ws) (with_id id) r rs found v.covered);
    }
  where
    taken :
        IsCovered ws r
        → (p w : ℕ)
        → reserved_at p w (update (stored_at r.product_id r.warehouse_id) g ws)
          ≡ promised_at p w (update (with_id id) f rs)
    taken there p w = elim (Option-cases (find (stored_at r.product_id r.warehouse_id) ws)) [
      | inl missing ↦ cc
      | inr (row, at) ↦
          reserved_at-update r.product_id r.warehouse_id g d row ws p w k at (takes row)
          ∙ ap (λ x. x +ℤ delta_at r.product_id r.warehouse_id p w d) (v.promised p w)
          ∙ sym (promised_at-update id f d r rs p w found (kp r) (kw r) (less r))
    ]
