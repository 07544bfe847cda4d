-- ===== src/Audit/Listing.antt =====
-- What `list_events` answers.
use Prim.Native.Nat.{min}
use wms_core.Base.{
  ℕ, zero, suc, ◌-◌, ◌≤◌, leb, pos_part, ◌≡◌, ◌↔◌, refl, ap, ◌∙◌, true, List, [], ◌∷◌, length,
  select, take, drop, All, Bool-cases, inl, inr, arith,
}
use wms_core.Base.Tables.{All-map}
use wms_core.Audit.Matches.{Matches, passes_iff}
use wms_core.Audit.Repo.{AuditEvent, Query, passes, insert, newest_first, clamped, list_events}

length-insert : (e : AuditEvent) (xs : List AuditEvent) → length (insert e xs) ≡ suc (length xs)
unfolding insert
length-insert e [] = refl
length-insert e (x ∷ xs) = ground (arith, length-insert e xs)

length-newest_first : (xs : List AuditEvent) → length (newest_first xs) ≡ length xs
unfolding newest_first
length-newest_first [] = refl
length-newest_first (x ∷ xs) = length-insert x (newest_first xs) ∙ ap suc (length-newest_first xs)

length-drop : (n : ℕ) (xs : List AuditEvent) → length (drop n xs) ≡ length xs - n
unfolding drop
length-drop zero xs = ground arith
length-drop (suc n) [] = ground arith
length-drop (suc n) (x ∷ xs) = ground (arith, length-drop n xs)

length-take : (n : ℕ) (xs : List AuditEvent) → length (take n xs) ≡ min n (length xs)
unfolding take
length-take zero xs = ground arith
length-take (suc n) [] = ground arith
length-take (suc n) (x ∷ xs) = ground (arith, length-take n xs)

-- Each row was created no later than those before it.
abbrev pub IsNewestFirst : List AuditEvent → Type 0
IsNewestFirst [] = Unit
IsNewestFirst (x ∷ xs) = All (λ y. y.created_at ≤ x.created_at) xs × IsNewestFirst xs

module _ (P : AuditEvent → Type 0) where
  All-insert : (e : AuditEvent) (xs : List AuditEvent) → P e → All P xs → All P (insert e xs)
  unfolding insert
  All-insert e [] he h = (he, tt)
  All-insert e (x ∷ xs) he h = elim (Bool-cases (leb x.created_at e.created_at)) [
    | inl u ↦ rw u (he, h)
    | inr u ↦ rw u (h.0, All-insert e xs he h.1)
  ]

  All-newest_first : (xs : List AuditEvent) → All P xs → All P (newest_first xs)
  unfolding newest_first
  All-newest_first [] h = tt
  All-newest_first (x ∷ xs) h = All-insert x (newest_first xs) h.0 (All-newest_first xs h.1)

  All-drop : (n : ℕ) (xs : List AuditEvent) → All P xs → All P (drop n xs)
  unfolding drop
  All-drop zero xs h = h
  All-drop (suc n) [] h = tt
  All-drop (suc n) (x ∷ xs) h = All-drop n xs h.1

  All-take : (n : ℕ) (xs : List AuditEvent) → All P xs → All P (take n xs)
  unfolding take
  All-take zero xs h = tt
  All-take (suc n) [] h = tt
  All-take (suc n) (x ∷ xs) h = (h.0, All-take n xs h.1)

insert-IsNewestFirst :
    (e : AuditEvent) (xs : List AuditEvent) → IsNewestFirst xs → IsNewestFirst (insert e xs)
unfolding insert
insert-IsNewestFirst e [] h = (tt, tt)
insert-IsNewestFirst e (x ∷ xs) h = elim (Bool-cases (leb x.created_at e.created_at)) [
  | inl u ↦ rw u ((ground arith, All-map _ _ xs (λ y k. ground arith) h.0), h)
  | inr u ↦ rw u (
    All-insert (λ y. y.created_at ≤ x.created_at) e xs (ground arith) h.0,
    insert-IsNewestFirst e xs h.1,
  )
]

newest_first-IsNewestFirst : (xs : List AuditEvent) → IsNewestFirst (newest_first xs)
unfolding newest_first
newest_first-IsNewestFirst [] = tt
newest_first-IsNewestFirst (x ∷ xs) =
    insert-IsNewestFirst x (newest_first xs) (newest_first-IsNewestFirst xs)

drop-IsNewestFirst : (n : ℕ) (xs : List AuditEvent) → IsNewestFirst xs → IsNewestFirst (drop n xs)
unfolding drop
drop-IsNewestFirst zero xs h = h
drop-IsNewestFirst (suc n) [] h = tt
drop-IsNewestFirst (suc n) (x ∷ xs) h = drop-IsNewestFirst n xs h.1

take-IsNewestFirst : (n : ℕ) (xs : List AuditEvent) → IsNewestFirst xs → IsNewestFirst (take n xs)
unfolding take
take-IsNewestFirst zero xs h = tt
take-IsNewestFirst (suc n) [] h = tt
take-IsNewestFirst (suc n) (x ∷ xs) h =
    (All-take (λ y. y.created_at ≤ x.created_at) n xs h.0, take-IsNewestFirst n xs h.1)

All-Matches : (q : Query) (xs : List AuditEvent) → All (Matches q) (select (passes q) xs)
unfolding select
All-Matches q [] = tt
All-Matches q (x ∷ xs) = elim (Bool-cases (passes q x)) [
  | inl u ↦ rw u ((passes_iff q x).0 u, All-Matches q xs)
  | inr u ↦ rw u (All-Matches q xs)
]

-- A row passes exactly where it matches the query: each filter that is given, and is not an empty
-- text, holds of the row's column. A page has only rows that match, the newest first, never more than
-- 500, and as many as match from its offset on up to its limit.
pub list_events_lem :
    (q : Query) (rows : List AuditEvent)
    → ((e : AuditEvent) → (passes q e ≡ true) ↔ Matches q e)
      × All (Matches q) (list_events q rows)
      × IsNewestFirst (list_events q rows)
      × (length (list_events q rows) ≤ 500)
      × (length (list_events q rows)
          ≡ min (clamped q.limit) (length (select (passes q) rows) - pos_part q.offset))
unfolding list_events
list_events_lem q rows = (
  passes_iff q,
  All-take _ _ _ (All-drop _ _ _ (All-newest_first _ _ (All-Matches q rows))),
  take-IsNewestFirst _ _ (drop-IsNewestFirst _ _ (newest_first-IsNewestFirst matches)),
  ground (arith, page),
  page,
)
  where
    matches : List AuditEvent
    matches = select (passes q) rows

    page :
        length (take (clamped q.limit) (drop (pos_part q.offset) (newest_first matches)))
        ≡ min (clamped q.limit) (length matches - pos_part q.offset)
    page =
        length-take (clamped q.limit) (drop (pos_part q.offset) (newest_first matches))
        ∙ ap (min (clamped q.limit)) (
            length-drop (pos_part q.offset) (newest_first matches)
            ∙ ap (λ n. n - pos_part q.offset) (length-newest_first matches))
