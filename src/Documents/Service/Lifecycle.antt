-- ===== src/Documents/Service/Lifecycle.antt =====
-- `post_document`, `approve_request`, `cancel_document`, `start_execution`, `complete_request` and
-- `delete_document`.
use wms_core.Base.{
  ℕ, Bool, true, false, not, ◌&&◌, String, str_eq, Option, none, some, if◌then◌else◌,
}
use wms_core.Exec.{
  ok, err, Exec, pure, raise, raise_if, lift, ◌>>=◌, ◌>>◌, document_not_found_error,
  invalid_document_status_error,
}
use wms_core.Documents.Types.{DocumentStatus}
use wms_core.Documents.Document.{Document, is_draft, is_posted, is_cancelled, post, cancel}
use wms_core.Documents.Repo.{Action, DocumentEvent, commit, save, get, delete}
use wms_core.Documents.Service.Create.{publish}

abbrev pub present : Option Document → Action Document
present none = raise document_not_found_error
present (some d) = pure d

unfoldable pub get_document : ℕ → Action Document
unfolding get
get_document document_id = do found ← get document_id; present found

-- A method of the entity, called on a document that the action holds.
abbrev pub call : Exec Document (Unit {0}) → Document → Action Document
call method d = let (r, d') = method d in lift (elim r [ ok _ ↦ ok d' | err e ↦ err e ])

unfoldable pub save_and_commit : Document → Action (Unit {0})
unfolding save commit
save_and_commit d = do save d; commit

-- `approved_by and document.approved_by and approved_by != document.approved_by`
abbrev pub other_approver : String → Option String → Bool
other_approver name none = false
other_approver name (some before) =
    not (str_eq name "") && not (str_eq before "") && not (str_eq name before)

unfoldable pub publish_document_posted : Option String → Document → Action (Unit {0})
publish_document_posted request_id d = do
  publish (DocumentEvent.document_posted request_id d)
  publish (DocumentEvent.inventory_movement_requested request_id d)

unfoldable pub post_draft : String → Option String → ℕ → Document → Action Document
unfolding post save_and_commit publish_document_posted
post_draft approved_by request_id now d = do
  document ← call (post approved_by now) d
  save_and_commit document
  publish_document_posted request_id document
  pure document

-- `post_document` of a document that is posted already.
unfoldable pub post_again : String → Option String → Document → Action Document
unfolding publish_document_posted
post_again approved_by request_id d = do
  raise_if (other_approver approved_by d.approved_by) invalid_document_status_error
  publish_document_posted request_id d
  pure d

unfoldable pub post_document : ℕ → String → Option String → ℕ → Action Document
unfolding get_document
post_document document_id approved_by request_id now = do
  d ← get_document document_id
  raise_if (is_cancelled d.status) invalid_document_status_error
  if is_posted d.status
      then post_again approved_by request_id d
      else post_draft approved_by request_id now d

abbrev pub approved : String → ℕ → Document → Document
approved approved_by now d = record d {
  status = DocumentStatus.posted;
  approved_by = some approved_by;
  approved_at = some now;
  posted_at = some now;
}

unfoldable pub approve_draft : String → Option String → ℕ → Document → Action Document
unfolding save_and_commit
approve_draft approved_by request_id now d = do
  raise_if (not (is_draft d.status)) invalid_document_status_error
  let document = approved approved_by now d
  save_and_commit document
  publish (DocumentEvent.document_posted request_id document)
  publish (DocumentEvent.document_approved request_id document)
  pure document

-- `approve_request` of a document that is posted already.
unfoldable pub approve_again : String → Document → Action Document
approve_again approved_by d = do
  raise_if (other_approver approved_by d.approved_by) invalid_document_status_error
  pure d

unfoldable pub approve_request : ℕ → String → Option String → ℕ → Action Document
unfolding get_document
approve_request document_id approved_by request_id now = do
  d ← get_document document_id
  raise_if (is_cancelled d.status) invalid_document_status_error
  if is_posted d.status
      then approve_again approved_by d
      else approve_draft approved_by request_id now d

unfoldable pub cancel_document : ℕ → String → Option String → Option String → ℕ → Action Document
unfolding get_document cancel save_and_commit
cancel_document document_id cancelled_by reason request_id now = do
  d ← get_document document_id
  document ← call (cancel cancelled_by reason now) d
  save_and_commit document
  publish (DocumentEvent.document_cancelled request_id document)
  pure document

abbrev pub is_completed : DocumentStatus → Bool
is_completed DocumentStatus.completed = true
is_completed _ = false

abbrev pub is_executed : DocumentStatus → Bool
is_executed DocumentStatus.executed = true
is_executed _ = false

abbrev pub started : ℕ → Document → Document
started now d = record d { status = DocumentStatus.in_progress; execution_started_at = some now }

unfoldable pub start_execution : ℕ → Option String → ℕ → Action Document
unfolding get_document save_and_commit
start_execution document_id request_id now = do
  d ← get_document document_id
  raise_if (is_cancelled d.status) invalid_document_status_error
  raise_if (is_completed d.status) invalid_document_status_error
  let document = started now d
  save_and_commit document
  publish (DocumentEvent.execution_started request_id document)
  pure document

abbrev pub completed : ℕ → Document → Document
completed now d = record d { status = DocumentStatus.completed; completed_at = some now }

unfoldable pub complete_request : ℕ → String → Option String → ℕ → Action Document
unfolding get_document save_and_commit
complete_request document_id completed_by request_id now = do
  d ← get_document document_id
  raise_if (not (is_executed d.status)) invalid_document_status_error
  let document = completed now d
  save_and_commit document
  publish (DocumentEvent.document_completed request_id document completed_by)
  pure document

unfoldable pub delete_document : ℕ → Action (Unit {0})
unfolding get_document delete commit
delete_document document_id = do
  d ← get_document document_id
  raise_if (not (is_draft d.status)) invalid_document_status_error
  delete document_id
  commit
