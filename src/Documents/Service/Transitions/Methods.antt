-- ===== src/Documents/Service/Transitions/Methods.antt =====
-- Each method of the service as a transition of the lifecycle.
use wms_core.Base.{
  ℕ, ◌≡◌, refl, sym, ap, ◌∙◌, true, false, String, Option, some, List, arith, find, Option-cases,
  inl, inr,
}
use mathlib.Core.Path.{subst}
use wms_core.Exec.{Error, Result, continue, ok, err, pure, ◌>>=◌, ◌>>◌}
use wms_core.Documents.Types.{DocumentStatus}
use wms_core.Documents.Document.{Document, is_draft, is_posted, is_cancelled, post, cancel}
use wms_core.Documents.Repo.{Session, Action, get, to_domain, with_id}
use wms_core.Documents.Service.Lifecycle.{
  present, get_document, post_document, post_draft, post_again, approve_request, approve_draft,
  approve_again, cancel_document, start_execution, complete_request, call, approved, started,
  completed,
}
use wms_core.Documents.Service.Execute.{
  ItemConfirmation, executed, is_confirmable, confirm_execution,
}
use wms_core.Documents.Service.Transitions.{
  posts, stays, cancels, starts, executes, completes, bind-ok, Yields-pure, Yields-bind, not-not,
  saved, Steps-to, Steps-guard, Steps-if, Steps-checked, Steps-lift, Steps, Transition, Command,
  perform,
}

posted_fact :
    (by : String) (now : ℕ) (d d' : Document)
    → (post by now d).0 ≡ ok tt
    → (is_draft d.status ≡ true) × ((post by now d).1.status ≡ DocumentStatus.posted)
unfolding post ◌>>=◌
posted_fact by now d d' h = ground arith

cancelled_fact :
    (by : String) (reason : Option String) (now : ℕ) (d d' : Document)
    → (cancel by reason now d).0 ≡ ok tt
    → (is_posted d.status ≡ false)
      × (is_cancelled d.status ≡ false)
      × ((cancel by reason now d).1.status ≡ DocumentStatus.cancelled)
unfolding cancel ◌>>=◌
cancelled_fact by reason now d d' h = ground arith

call_ok :
    (r : Result (Unit {0})) (d a : Document)
    → elim r [ ok _ ↦ ok d | err e ↦ err e ] ≡ ok a
    → (r ≡ ok tt) × (d ≡ a)
call_ok (ok _) d a h = (refl, cc)
call_ok (err e) d a h = absurd cc

post_draft-Steps :
    (by : String) (r : Option String) (now : ℕ) (d : Document) → Steps d (post_draft by r now d)
unfolding post_draft
post_draft-Steps by r now d = Steps-lift d _ _ (λ a e.
    let (returned, same) = call_ok (post by now d).0 (post by now d).1 a e in
    let (was_draft, now_posted) = posted_fact by now d a returned in
    Steps-to d a _ (saved a _ _)
      (subst (Transition d.status) (sym now_posted ∙ ap (λ x. x.status) same) (posts was_draft)))

post_again-Steps :
    (by : String) (r : Option String) (d : Document)
    → is_posted d.status ≡ true
    → Steps d (post_again by r d)
unfolding post_again
post_again-Steps by r d posted =
    Steps-guard d _ _ _
      (λ g. Steps-to d d _ (Yields-bind d _ _ (λ _. Yields-pure d)) (stays posted))

cancel-Steps :
    (by : String) (reason : Option String) (now : ℕ) (d : Document)
    (save publish : Document → Action (Unit {0}))
    → Steps d (call (cancel by reason now) d >>= λ a. save a >> (publish a >> pure a))
cancel-Steps by reason now d save publish = Steps-lift d _ _ (λ a e.
    let (returned, same) = call_ok (cancel by reason now d).0 (cancel by reason now d).1 a e in
    let (not_posted, live, now_cancelled) = cancelled_fact by reason now d a returned in
    Steps-to d a _ (saved a _ _) (
      subst (Transition d.status) (sym now_cancelled ∙ ap (λ x. x.status) same)
        (cancels not_posted live)))

module _ (id : ℕ) (s : Session) (d' : Document) where
  -- The document that was read, and its step.
  abbrev pub Outcome : Type 0
  Outcome = (d : Document) × ((get_document id s).0 ≡ ok d) × Transition d.status d'.status

  from_read :
      (body : Document → Action Document)
      → ((d : Document) → Steps d (body d))
      → ((get_document id >>= body) s).0 ≡ ok d'
      → Outcome
  from_read body steps h =
      let (d, read, rest) = bind-ok (get_document id) body s d' h in
      (d, read, (steps d).at (get_document id s).1 d' rest)

  complete-Outcome :
      (by : String) (r : Option String) (now : ℕ)
      → (complete_request id by r now s).0 ≡ ok d'
      → Outcome
  unfolding complete_request
  complete-Outcome by r now = from_read _ (λ d.
      Steps-guard d _ _ _
        (λ g. Steps-to d (completed now d) _ (saved _ _ _) (completes (not-not _ g))))

  start-Outcome : (r : Option String) (now : ℕ) → (start_execution id r now s).0 ≡ ok d' → Outcome
  unfolding start_execution
  start-Outcome r now = from_read _ (λ d.
      Steps-guard d _ _ _
        (λ g. Steps-guard d _ _ _ (λ k. Steps-to d (started now d) _ (saved _ _ _) (starts g k))))

  post-Outcome :
      (by : String) (r : Option String) (now : ℕ)
      → (post_document id by r now s).0 ≡ ok d'
      → Outcome
  unfolding post_document
  post-Outcome by r now = from_read _ (λ d.
      Steps-guard d _ _ _
        (λ g. Steps-if d _ _ _ (post_again-Steps by r d) (λ k. post_draft-Steps by r now d)))

  approve-Outcome :
      (by : String) (r : Option String) (now : ℕ)
      → (approve_request id by r now s).0 ≡ ok d'
      → Outcome
  unfolding approve_request approve_draft approve_again
  approve-Outcome by r now = from_read _ (λ d. Steps-guard d _ _ _ (λ g.
      Steps-if d _ _ _
        (λ posted. Steps-guard d _ _ _ (λ k. Steps-to d d _ (Yields-pure d) (stays posted)))
        (λ k. Steps-guard d _ _ _ (λ draft.
          Steps-to d (approved by now d) _ (Yields-bind _ _ _ (λ _. saved _ _ _))
            (posts (not-not _ draft))))))

  cancel-Outcome :
      (by : String) (reason r : Option String) (now : ℕ)
      → (cancel_document id by reason r now s).0 ≡ ok d'
      → Outcome
  unfolding cancel_document
  cancel-Outcome by reason r now = from_read _ (λ d. cancel-Steps by reason now d _ _)

  confirm-Outcome :
      (items : List ItemConfirmation) (r : Option String)
      → (confirm_execution id items r s).0 ≡ ok d'
      → Outcome
  unfolding confirm_execution
  confirm-Outcome items r = from_read _ (λ d. Steps-guard d _ _ _ (λ g.
      Steps-checked d _ _
        (λ es. Steps-to d (executed es d) _ (saved _ _ _) (executes (not-not _ g)))))

  -- A command that returns a document has read the document of the id, and the change from the status
  -- that it had to the status of the document returned is one of the transitions.
  pub perform_follows_lifecycle :
      (c : Command) (r : Option String) (now : ℕ)
      → (perform c id r now s).0 ≡ ok d'
      → (d : Document) × ((get_document id s).0 ≡ ok d) × Transition d.status d'.status
  unfolding perform
  perform_follows_lifecycle (Command.post_by by) r now = post-Outcome by r now
  perform_follows_lifecycle (Command.approve_by by) r now = approve-Outcome by r now
  perform_follows_lifecycle (Command.complete_by by) r now = complete-Outcome by r now
  perform_follows_lifecycle (Command.cancel_by by reason) r now = cancel-Outcome by reason r now
  perform_follows_lifecycle Command.start r now = start-Outcome r now
  perform_follows_lifecycle (Command.confirm items) r now = confirm-Outcome items r

get_document-state : (id : ℕ) (s : Session) → (get_document id s).1 ≡ s
unfolding get_document get ◌>>=◌
get_document-state id s = elim (Option-cases (find (with_id id) s.rows)) [
  | inl e ↦ rw e refl
  | inr (row, e) ↦ rw e (by_domain (to_domain s.database.ordered row))
]
  where
    by_domain :
        (r : Result Document)
        → (continue
            (continue r (λ d. pure (some d)) s).0
            present
            (continue r (λ d. pure (some d)) s).1).1
          ≡ s
    by_domain (ok d) = refl
    by_domain (err e) = refl

-- Each command of the lifecycle refuses a cancelled document with the error of its status, and leaves
-- the session and what is committed as they were.
pub cancelled_document_is_final :
    (id : ℕ) (s : Session) (d : Document)
    → (get_document id s).0 ≡ ok d
    → d.status ≡ DocumentStatus.cancelled
    → (c : Command) (r : Option String) (now : ℕ)
    → perform c id r now s ≡ (err Error.invalid_document_status_error, s)
unfolding perform post_document approve_request cancel_document cancel start_execution
    complete_request confirm_execution is_confirmable ◌>>=◌
cancelled_document_is_final id s d read status (Command.post_by by) r now =
    rw (read, get_document-state id s, status) refl
cancelled_document_is_final id s d read status (Command.approve_by by) r now =
    rw (read, get_document-state id s, status) refl
cancelled_document_is_final id s d read status (Command.complete_by by) r now =
    rw (read, get_document-state id s, status) refl
cancelled_document_is_final id s d read status (Command.cancel_by by reason) r now =
    rw (read, get_document-state id s, status) refl
cancelled_document_is_final id s d read status Command.start r now =
    rw (read, get_document-state id s, status) refl
cancelled_document_is_final id s d read status (Command.confirm items) r now =
    rw (read, get_document-state id s, status) refl
