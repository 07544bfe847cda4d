-- ===== src/Audit/Matches.antt =====
-- What the filters of `list_events` ask of a row.
use wms_core.Base.{
  ℕ, ◌≤◌, ◌≡◌, ◌≢◌, ◌↔◌, refl, sym, ap, ◌∙◌, Bool, true, ◌&&◌, String, str_eq, eq_iff, ==_iff,
  Option, none, some, Bool-cases, inl, inr, arith,
}
use wms_core.Inventory.Session.{same_text}
use wms_core.Audit.Repo.{
  AuditEvent, Query, passes, passes_text, passes_number, passes_from, passes_to,
}

-- A filter on a text that is there and not empty, and one on a number that is there.
abbrev pub HasText : Option String → Option String → Type 0
HasText filter column = (text : String) → filter ≡ some text → text ≢ "" → column ≡ some text

abbrev pub HasNumber : Option ℕ → Option ℕ → Type 0
HasNumber filter column = (n : ℕ) → filter ≡ some n → column ≡ some n

-- The row is what the query asks for.
pub record Matches (q : Query) (e : AuditEvent) : Type 0 where
  pub request : HasText q.request_id e.request_id
  pub user : HasNumber q.user_id e.user_id
  pub action : HasText q.action (some e.action)
  pub entity_type : HasText q.entity_type e.entity_type
  pub entity_id : HasText q.entity_id e.entity_id
  pub warehouse : HasNumber q.warehouse_id e.warehouse_id
  pub since : (t : ℕ) → q.created_from ≡ some t → t ≤ e.created_at
  pub before : (t : ℕ) → q.created_to ≡ some t → e.created_at ≤ t

unwrap : {A : Type 0} {a b : A} → some a ≡ some b → a ≡ b
unwrap h = cc

text_iff :
    (filter column : Option String) → (passes_text filter column ≡ true) ↔ HasText filter column
text_iff none column = (λ h text k. absurd cc, λ h. refl)
text_iff (some t) column = elim (Bool-cases (str_eq t "")) [
  | inl e ↦
      (λ h text same full. absurd (full (sym (unwrap same) ∙ (eq_iff t "").0 e)), λ h. rw e refl)
  | inr e ↦ rw e (by_column column (λ empty. absurd (cc (e, (eq_iff t "").1 empty))))
]
  where
    by_column :
        (column : Option String)
        → t ≢ ""
        → (same_text column (some t) ≡ true) ↔ HasText (some t) column
    by_column none full = (λ h. absurd cc, λ h. absurd (cc (h t refl full)))
    by_column (some c) full = (
      λ h text same k. ap some ((eq_iff c t).0 h) ∙ same,
      λ h. (eq_iff c t).1 (unwrap (h t refl full)),
    )

number_iff :
    (filter column : Option ℕ) → (passes_number filter column ≡ true) ↔ HasNumber filter column
number_iff none column = (λ h n k. absurd cc, λ h. refl)
number_iff (some t) none = (λ h n k. absurd cc, λ h. absurd (cc (h t refl)))
number_iff (some t) (some c) =
    (λ h n same. ap some ((==_iff c t).0 h) ∙ same, λ h. (==_iff c t).1 (unwrap (h t refl)))

from_iff :
    (filter : Option ℕ) (created : ℕ)
    → (passes_from filter created ≡ true) ↔ ((t : ℕ) → filter ≡ some t → t ≤ created)
from_iff none created = (λ h t k. absurd cc, λ h. refl)
from_iff (some from) created =
    (λ h t same. ground (arith, h, unwrap same), λ h. ground (arith, h from refl))

to_iff :
    (filter : Option ℕ) (created : ℕ)
    → (passes_to filter created ≡ true) ↔ ((t : ℕ) → filter ≡ some t → created ≤ t)
to_iff none created = (λ h t k. absurd cc, λ h. refl)
to_iff (some to) created =
    (λ h t same. ground (arith, h, unwrap same), λ h. ground (arith, h to refl))

abbrev Eight : Bool → Bool → Bool → Bool → Bool → Bool → Bool → Bool → Type 0
Eight a b c d e f g h =
    (a ≡ true)
    × (b ≡ true)
    × (c ≡ true)
    × (d ≡ true)
    × (e ≡ true)
    × (f ≡ true)
    × (g ≡ true)
    × (h ≡ true)

conjunction_iff :
    (a b c d e f g h : Bool)
    → ((a && b && c && d && e && f && g && h) ≡ true) ↔ Eight a b c d e f g h
conjunction_iff a b c d e f g h = (
  λ k. (
    ground arith,
    ground arith,
    ground arith,
    ground arith,
    ground arith,
    ground arith,
    ground arith,
    ground arith,
  ),
  λ k. ground (arith, k),
)

-- The conditions of the query are those that its filters state.
pub passes_iff : (q : Query) (e : AuditEvent) → (passes q e ≡ true) ↔ Matches q e
passes_iff q e = (
  λ h.
      let (a, b, c, d, f, g, i, j) = (conjunction_iff _ _ _ _ _ _ _ _).0 h in
      record {
        request = (text_iff q.request_id e.request_id).0 a;
        user = (number_iff q.user_id e.user_id).0 b;
        action = (text_iff q.action (some e.action)).0 c;
        entity_type = (text_iff q.entity_type e.entity_type).0 d;
        entity_id = (text_iff q.entity_id e.entity_id).0 f;
        warehouse = (number_iff q.warehouse_id e.warehouse_id).0 g;
        since = (from_iff q.created_from e.created_at).0 i;
        before = (to_iff q.created_to e.created_at).0 j;
      },
  λ m. (conjunction_iff _ _ _ _ _ _ _ _).1 (
    (text_iff q.request_id e.request_id).1 m.request,
    (number_iff q.user_id e.user_id).1 m.user,
    (text_iff q.action (some e.action)).1 m.action,
    (text_iff q.entity_type e.entity_type).1 m.entity_type,
    (text_iff q.entity_id e.entity_id).1 m.entity_id,
    (number_iff q.warehouse_id e.warehouse_id).1 m.warehouse,
    (from_iff q.created_from e.created_at).1 m.since,
    (to_iff q.created_to e.created_at).1 m.before,
  ),
)
