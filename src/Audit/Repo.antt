-- ===== src/Audit/Repo.antt =====
-- `AuditEventRepo`, app/modules/audit/infrastructure/repositories/audit_event_repo.py, without
-- `auto_commit`, over the table of infrastructure/models/audit_event.py. The payload of a row is left
-- out, and so is its `id`, which the caller drops. Queries do not see what was added since the last
-- flush.
use Prim.Native.Nat.{min}
use wms_core.Base.{
  ℕ, leb, max, ℤ, pos_part, Bool, true, false, ◌&&◌, String, str_eq, Option, none, some, is_some,
  List, [], ◌∷◌, ◌++◌, find, select, take, drop, if◌then◌else◌,
}
use wms_core.Exec.{ok, err, Exec, pure, gets, modify, ◌>>=◌, integrity_error}
use wms_core.Inventory.Session.{unique, same_text, same_number}

-- `AuditEventModel`
pub record AuditEvent : Type 0 where
  pub event_id : Option String
  pub request_id : Option String
  pub user_id : Option ℕ
  pub action : String
  pub entity_type : Option String
  pub entity_id : Option String
  pub warehouse_id : Option ℕ
  pub created_at : ℕ

pub record Session : Type 0 where
  pub rows : List AuditEvent
  pub new : List AuditEvent
  pub committed : List AuditEvent

abbrev pub Action : Type 0 → Type 0
Action A = Exec Session A

abbrev pub open_session : List AuditEvent → Session
open_session rows = record { rows = rows; new = []; committed = rows }

-- `event_id` is unique where it is there.
unfoldable pub constraints : List AuditEvent → Bool
unfolding unique
constraints rows = unique (λ a b. same_text a.event_id b.event_id) rows

-- `session.commit()`
unfoldable pub commit : Action (Unit {0})
commit s =
    let rows = s.rows ++ s.new in
    if constraints rows then (ok tt, open_session rows) else (err integrity_error, s)

abbrev pub with_event_id : String → AuditEvent → Bool
with_event_id event_id e = same_text e.event_id (some event_id)

-- `event_id and self.get_by_event_id(event_id)`
abbrev pub is_known : Option String → Session → Bool
is_known none s = false
is_known (some event_id) s =
    if str_eq event_id "" then false else is_some (find (with_event_id event_id) s.rows)

abbrev pub add : AuditEvent → Session → Session
add e s = record s { new = s.new ++ e ∷ [] }

unfoldable pub create_event : AuditEvent → Action (Unit {0})
unfolding find
create_event e = do known ← gets (is_known e.event_id); if known then pure tt else modify (add e)

-- The arguments of `list_events`.
pub record Query : Type 0 where
  pub request_id : Option String
  pub user_id : Option ℕ
  pub action : Option String
  pub entity_type : Option String
  pub entity_id : Option String
  pub warehouse_id : Option ℕ
  pub created_from : Option ℕ
  pub created_to : Option ℕ
  pub limit : ℤ
  pub offset : ℤ

-- A filter on a text, which is not applied where it is `None` or empty.
abbrev pub passes_text : Option String → Option String → Bool
passes_text none column = true
passes_text (some text) column = if str_eq text "" then true else same_text column (some text)

abbrev pub passes_number : Option ℕ → Option ℕ → Bool
passes_number none column = true
passes_number (some n) column = same_number column (some n)

abbrev pub passes_from : Option ℕ → ℕ → Bool
passes_from none t = true
passes_from (some from) t = leb from t

abbrev pub passes_to : Option ℕ → ℕ → Bool
passes_to none t = true
passes_to (some to) t = leb t to

abbrev pub passes : Query → AuditEvent → Bool
passes q e =
    passes_text q.request_id e.request_id
    && passes_number q.user_id e.user_id
    && passes_text q.action (some e.action)
    && passes_text q.entity_type e.entity_type
    && passes_text q.entity_id e.entity_id
    && passes_number q.warehouse_id e.warehouse_id
    && passes_from q.created_from e.created_at
    && passes_to q.created_to e.created_at

unfoldable pub insert : AuditEvent → List AuditEvent → List AuditEvent
insert e [] = e ∷ []
insert e (x ∷ xs) =
    let rest = insert e xs in if leb x.created_at e.created_at then e ∷ x ∷ xs else x ∷ rest

-- `order_by(created_at.desc())`
unfoldable pub newest_first : List AuditEvent → List AuditEvent
unfolding insert
newest_first [] = []
newest_first (e ∷ es) = insert e (newest_first es)

-- `max(1, min(int(limit), 500))` and `max(0, int(offset))`
abbrev pub clamped : ℤ → ℕ
clamped limit = max 1 (min (pos_part limit) 500)

unfoldable pub list_events : Query → List AuditEvent → List AuditEvent
unfolding select newest_first take drop
list_events q rows =
    take (clamped q.limit) (drop (pos_part q.offset) (newest_first (select (passes q) rows)))
