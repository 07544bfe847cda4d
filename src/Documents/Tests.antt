-- ===== src/Documents/Tests.antt =====
-- The documents service on concrete data.
use wms_core.Base.{
  ◌-◌, pos, ◌&&◌, ◌≡◌, refl, true, false, none, some, List, [], ◌∷◌, All, find, update, is_blank,
  is_nil,
}
use mathlib.Core.List.{Permᴰ}
use mathlib.Core.List.Permᴰ
use wms_core.Exec.{Error, err, ok, ◌>>=◌, ◌>>◌}
use wms_core.Documents.Types.{DocumentType, DocumentStatus, requires_reason_code}
use wms_core.Documents.Document.{Document, DocumentProduct, add_item, remove_item, draft_of}
use wms_core.Documents.Document.Items.{remove_item-add_item}
use wms_core.Documents.Repo.{Database, Session, row_of, save, commit}
use wms_core.Documents.Repo.RoundTrip.{IsStorable}
use wms_core.Documents.Service.Create.{Creation, create}
use wms_core.Documents.Service.Creation.{create-IsStorable}
use wms_core.Documents.Service.Lifecycle.{get_document, post_document, post_draft}
use wms_core.Documents.Service.Execute.{
  find_last, ItemConfirmation, Executed, executed, confirm_execution, member, ids_of, no_reason,
  validate_execution,
}
use wms_core.Documents.Service.Transitions.{Command, perform, Transition}
use wms_core.Documents.Service.Transitions.Methods.{
  perform_follows_lifecycle, cancelled_document_is_final,
}
use wms_core.Documents.Service.Confirmed.{Confirms}
use wms_core.Documents.Service.Outcome.{Distinct, IsExecuted, confirm_execution_executes_every_line}
use wms_core.Documents.Service.Bounds.{
  IsConfirmed, NoRepeat, accepted_execution_is_complete_and_bounded,
}

abbrev item : DocumentProduct
item = record {
  product_id = 7;
  quantity = pos 5;
  unit_price = pos 120;
  requested_qty = pos 5;
  reserved_qty = pos 0;
  executed_qty = none;
  rejected_qty = pos 0;
  difference_qty = pos 0;
  execution_status = none;
}

-- An import into warehouse 2, and the same document later.
abbrev draft : Document
draft = draft_of (record {
  document_id = 1;
  doc_type = DocumentType.import;
  from_warehouse_id = none;
  to_warehouse_id = some 2;
  items = item ∷ [];
  created_by = "ann";
  note = none;
  customer_id = none;
  now = 100;
})

abbrev cancelled : Document
cancelled = record draft { status = DocumentStatus.cancelled; cancelled_at = some 101 }

-- A database that drops seven hours from a time and gives items back as they were written.
abbrev database : Database
database = record { column_time = λ t. t - 7; ordered = λ rows. rows }

abbrev empty_session : Session
empty_session = record {
  rows = [];
  new = [];
  committed = [];
  counter = 0;
  published = [];
  takes = λ before e. true;
  database = database;
}

abbrev holding : Document → Session
holding d = record empty_session {
  rows = row_of (λ t. t) d ∷ [];
  committed = row_of (λ t. t) d ∷ [];
}

abbrev second : DocumentProduct
second = record item { product_id = 8 }

abbrev longer : Document
longer = record draft { items = item ∷ second ∷ [] }

second_is_added : add_item second draft ≡ (ok tt, longer)
unfolding add_item find ◌>>=◌
second_is_added = refl

remove_item-add_item_example : remove_item 8 longer ≡ (ok tt, draft)
remove_item-add_item_example = remove_item-add_item second draft longer second_is_added

abbrev stored : Session
stored = ((save draft >> commit) empty_session).1

abbrev posted : Document
posted = record draft {
  status = DocumentStatus.posted;
  approved_by = some "bob";
  posted_at = some 102;
}

draft_is_posted : (perform (Command.post_by "bob") 1 none 102 (holding draft)).0 ≡ ok posted
unfolding perform post_document ◌>>=◌ find is_blank post_draft update
draft_is_posted = refl

perform_follows_lifecycle_example :
    (d : Document) × ((get_document 1 (holding draft)).0 ≡ ok d)
    × Transition d.status DocumentStatus.posted
perform_follows_lifecycle_example =
    perform_follows_lifecycle 1 (holding draft) posted (Command.post_by "bob") none 102
      draft_is_posted

cancelled_is_read : (get_document 1 (holding cancelled)).0 ≡ ok cancelled
unfolding get_document ◌>>=◌ find is_blank
cancelled_is_read = refl

cancelled_document_is_final_example :
    perform Command.start 1 none 103 (holding cancelled)
    ≡ (err Error.invalid_document_status_error, holding cancelled)
cancelled_document_is_final_example =
    cancelled_document_is_final 1 (holding cancelled) cancelled cancelled_is_read refl Command.start
      none 103

abbrev confirmations : List ItemConfirmation
confirmations = record { product_id = some 7; quantity = some (pos 4) } ∷ []

abbrev lines : List Executed
lines = record { product_id = 7; quantity = pos 4 } ∷ []

confirmations_are_accepted : validate_execution draft confirmations ≡ ok lines
unfolding validate_execution
confirmations_are_accepted = refl

accepted_execution_example :
    ((requires_reason_code draft.transaction_type && no_reason draft.reason_code) ≡ false)
    × All (IsConfirmed draft.items) lines
    × NoRepeat [] lines
    × All (λ i. member i.product_id (ids_of lines) ≡ true) draft.items
accepted_execution_example =
    accepted_execution_is_complete_and_bounded draft confirmations lines confirmations_are_accepted

abbrev creation : Creation
creation = record {
  items = record { product_id = some 7; quantity = some (pos 5); unit_price = some (pos 120) } ∷ [];
  created_by = "ann";
  note = none;
  transaction_type = none;
  reason_code = none;
  request_id = none;
  now = 100;
}

draft_is_created :
    (create DocumentType.import none (some 2) none creation empty_session).0 ≡ ok draft
unfolding create ◌>>=◌ is_blank find
draft_is_created = refl

create-IsStorable_example :
    IsStorable draft × (draft.status ≡ DocumentStatus.draft) × (is_nil draft.items ≡ false)
create-IsStorable_example =
    create-IsStorable DocumentType.import none (some 2) none creation empty_session draft
      draft_is_created

posted_is_read : (get_document 1 (holding posted)).0 ≡ ok posted
unfolding get_document ◌>>=◌ find is_blank
posted_is_read = refl

abbrev done : Document
done = executed lines posted

execution_is_confirmed : (confirm_execution 1 confirmations none (holding posted)).0 ≡ ok done
unfolding confirm_execution ◌>>=◌ find is_blank update
execution_is_confirmed = refl

posted-Distinct : Distinct posted.items
unfolding find_last
posted-Distinct = (refl, tt)

confirm_execution_example :
    All (IsExecuted (Confirms confirmations)) done.items × (done.status ≡ DocumentStatus.executed)
confirm_execution_example =
    confirm_execution_executes_every_line 1 confirmations none (holding posted) posted done
      posted_is_read posted-Distinct execution_is_confirmed
