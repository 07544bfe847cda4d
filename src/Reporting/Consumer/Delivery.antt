-- ===== src/Reporting/Consumer/Delivery.antt =====
-- Messages that fail, and messages that the broker delivers again.
use wms_core.Base.{
  String, str_eq, eq_iff, ◌≡◌, refl, sym, ap, ◌∙◌, Bool, true, Bool-cases, inl, inr, is_some, List,
  [], ◌∷◌, ◌++◌, map, append-nil, find, arith,
}
use wms_core.Base.Tables.{is_some-find-append, is_some-find-append_right}
use mathlib.Core.Path.{subst}
use wms_core.Exec.{Error, Result, ok, err, pure, continue, ◌>>=◌}
use wms_core.Exec.Atomic.{
  IsQuiet, IsAtomic, never, quiet_rules, IsQuiet-bind, IsQuiet-gets, IsQuiet-modify, IsQuiet-if,
  IsAtomic-bind,
}
use wms_core.Reporting.Rows.{Cell, InventorySummary, Envelope, ReadModelEvent, Db}
use wms_core.Reporting.Session.{
  Session, open_session, track, matrix_eqb, flush_row, flushed, constraints, commit,
}
use wms_core.Reporting.Consumer.{
  of_event, add_event, event_row, project, record_new, record_event, ingest, consume,
}
use wms_core.Reporting.Consumer.Frame.{frame, project-IsQuiet}

-- What other sessions see.
abbrev shared : Session → Db
shared s = s.committed

record_event-IsQuiet : (m : String) (e : Envelope) → IsQuiet shared (record_event m e)
unfolding record_event record_new
record_event-IsQuiet m e = IsQuiet-bind _ _ (IsQuiet-gets _) (λ found.
    IsQuiet-if (is_some found) _ _ (search quiet_rules) (
      IsQuiet-bind _ _ (IsQuiet-modify _ (λ s. refl)) (λ _.
        IsQuiet-bind _ _ (record { at = λ s. ap (λ x. x.0) ((project-IsQuiet e).at s) })
          (λ _. search quiet_rules))))

commit-IsAtomic : IsAtomic shared never commit
unfolding commit
commit-IsAtomic = record { at = λ s x h _. ground arith }

ingest-IsAtomic : (m : String) (e : Envelope) → IsAtomic shared never (ingest m e)
unfolding ingest
ingest-IsAtomic m e = IsAtomic-bind _ _ (record_event-IsQuiet m e) (λ _. commit-IsAtomic)

-- A message whose handling raises, for whatever reason, leaves the read model as it was.
pub failed_event_changes_nothing :
    (db db' : Db) (m : String) (e : Envelope) (x : Error) → consume db m e ≡ (err x, db') → db' ≡ db
unfolding consume never
failed_event_changes_nothing db db' m e x h =
    sym (ap (λ r. r.1) h) ∙ (ingest-IsAtomic m e).at (open_session db) x (ap (λ r. r.0) h) refl

str_eq_self : (a : String) → str_eq a a ≡ true
str_eq_self a = (eq_iff a a).1 refl

record_new-frame :
    (m : String) (e : Envelope) (s : Session)
    → frame (record_new m e s).1 ≡ frame (add_event (event_row m e) s)
unfolding record_new ◌>>=◌
record_new-frame m e s =
    (IsQuiet-bind (project e) (λ _. pure true) (project-IsQuiet e) (λ _. search quiet_rules)).at
      (add_event (event_row m e) s)

-- Once `record_event` is done, the event is among the rows or the added objects.
abbrev holds_event : String → Db × List ReadModelEvent × List ReadModelEvent → Bool
holds_event id (db, old, new) = is_some (find (of_event id) (old ++ new))

new_event_is_held :
    (m : String) (e : Envelope) (db : Db) (old new : List ReadModelEvent)
    → holds_event e.event_id (db, old, new ++ event_row m e ∷ []) ≡ true
unfolding find
new_event_is_held m e db old new =
    is_some-find-append_right _ old _
      (is_some-find-append_right _ new _ (rw (str_eq_self e.event_id) refl))

record_event-holds :
    (m : String) (e : Envelope) (s : Session)
    → holds_event e.event_id (frame (record_event m e s).1) ≡ true
unfolding record_event ◌>>=◌
record_event-holds m e s = elim (Bool-cases (is_some (find (of_event e.event_id) s.events))) [
  | inl u ↦ rw u (is_some-find-append _ s.events s.new.events u)
  | inr u ↦ rw (u, record_new-frame m e s) (new_event_is_held m e s.committed s.events s.new.events)
]

commit-committed :
    (s t : Session)
    → commit s ≡ (ok tt, t)
    → (t.committed ≡ flushed s) × (constraints (flushed s) ≡ true)
unfolding commit
commit-committed s t h = ground (arith, ap (λ r. r.0) h, ap (λ r. r.1.committed) h)

matrix_eqb_self : (xs : List Cell) → matrix_eqb xs xs ≡ true
unfolding matrix_eqb
matrix_eqb_self [] = refl
matrix_eqb_self (x ∷ xs) = ground (arith, matrix_eqb_self xs)

map-flush_row : (rows : List InventorySummary) → map flush_row (map track rows) ≡ rows
unfolding flush_row
map-flush_row [] = refl
map-flush_row (r ∷ rows) = rw (matrix_eqb_self r.warehouse_matrix, map-flush_row rows) refl

-- A session that wrote nothing flushes what it read.
pub flushed-open_session : (db : Db) → flushed (open_session db) ≡ db
unfolding flushed
flushed-open_session db =
    rw
      (
        map-flush_row db.inventory,
        append-nil db.inventory,
        append-nil db.documents,
        append-nil db.sales,
        append-nil db.warehouses,
        append-nil db.events,
      )
      refl

-- Where `commit` runs and returns, the database has what the session flushed.
pub committed_is_flushed :
    (r : Result Bool) (s : Session) (db' : Db)
    → (continue r (λ _. commit) s).0 ≡ ok tt
    → (continue r (λ _. commit) s).1.committed ≡ db'
    → (db' ≡ flushed s) × (constraints (flushed s) ≡ true)
committed_is_flushed (err x) s db' h k = absurd cc
committed_is_flushed (ok b) s db' h k =
    let both = commit-committed s (commit s).1 (ap (λ x. (x, (commit s).1)) h) in
    (sym k ∙ both.0, both.1)

-- A message that was taken leaves sound tables, and its event among the rows.
consume-holds :
    (db db' : Db) (m : String) (e : Envelope)
    → consume db m e ≡ (ok tt, db')
    → (constraints db' ≡ true) × (is_some (find (of_event e.event_id) db'.events) ≡ true)
unfolding consume ingest ◌>>=◌ flushed
consume-holds db db' m e h =
    let s : Session = (record_event m e (open_session db)).1 in
    let both =
      committed_is_flushed (record_event m e (open_session db)).0 s db' (ap (λ r. r.0) h)
        (ap (λ r. r.1) h) in
    subst (λ x. (constraints x ≡ true) × (is_some (find (of_event e.event_id) x.events) ≡ true))
      (sym both.0) (both.1, record_event-holds m e (open_session db))

consume_again :
    (db : Db) (m : String) (e : Envelope)
    → constraints db ≡ true
    → is_some (find (of_event e.event_id) db.events) ≡ true
    → consume db m e ≡ (ok tt, db)
unfolding consume ingest record_event ◌>>=◌ commit
consume_again db m e sound found = rw (found, flushed-open_session db, sound) refl

-- An event that was taken and is delivered again, in the same message or in another one, is taken
-- and changes nothing.
pub redelivered_event_is_ignored :
    (db db' : Db) (m m' : String) (e : Envelope)
    → consume db m e ≡ (ok tt, db')
    → consume db' m' e ≡ (ok tt, db')
redelivered_event_is_ignored db db' m m' e h =
    let (sound, held) = consume-holds db db' m e h in consume_again db' m' e sound held
