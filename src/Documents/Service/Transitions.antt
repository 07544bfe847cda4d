-- ===== src/Documents/Service/Transitions.antt =====
-- The lifecycle of a document: the changes of status that the service's methods make.
pub mod Methods
use wms_core.Base.{
  ℕ, ◌≡◌, ◌≢◌, refl, sym, ap, ◌∙◌, Bool, true, false, not, String, Option, List, arith,
  if◌then◌else◌,
}
use mathlib.Core.Path.{subst}
use wms_core.Exec.{Result, ok, err, continue, lift, pure, raise_if, Error, ◌>>=◌, ◌>>◌}
use wms_core.Documents.Types.{DocumentStatus}
use wms_core.Documents.Document.{Document, is_draft, is_posted, is_cancelled, post, cancel}
use wms_core.Documents.Repo.{Session, Action}
use wms_core.Documents.Service.Lifecycle.{
  get_document, post_document, post_draft, post_again, approve_request, approve_draft,
  approve_again, cancel_document, start_execution, complete_request, call, approved, started,
  completed, is_completed, is_executed,
}
use wms_core.Documents.Service.Execute.{
  ItemConfirmation, executed, is_confirmable, confirm_execution,
}

-- The methods of the service that move a document along, with who asks and what is confirmed.
pub data Command : Type 0 where
  post_by approve_by complete_by : String → Command
  cancel_by : String → Option String → Command
  start : Command
  confirm : List ItemConfirmation → Command

-- A method on the document of an id, with the request's id and the time.
unfoldable pub perform : Command → ℕ → Option String → ℕ → Action Document
perform (Command.post_by by) id request_id now = post_document id by request_id now
perform (Command.approve_by by) id request_id now = approve_request id by request_id now
perform (Command.complete_by by) id request_id now = complete_request id by request_id now
perform (Command.cancel_by by reason) id request_id now =
    cancel_document id by reason request_id now
perform Command.start id request_id now = start_execution id request_id now
perform (Command.confirm items) id request_id now = confirm_execution id items request_id

-- The changes of status.
pub data Transition : DocumentStatus → DocumentStatus → Type 0 where
  posts : {from : DocumentStatus} → is_draft from ≡ true → Transition from DocumentStatus.posted
  stays : {from : DocumentStatus} → is_posted from ≡ true → Transition from from
  cancels :
      {from : DocumentStatus}
      → is_posted from ≡ false
      → is_cancelled from ≡ false
      → Transition from DocumentStatus.cancelled
  starts :
      {from : DocumentStatus}
      → is_cancelled from ≡ false
      → is_completed from ≡ false
      → Transition from DocumentStatus.in_progress
  executes :
      {from : DocumentStatus} → is_confirmable from ≡ true → Transition from DocumentStatus.executed
  completes :
      {from : DocumentStatus} → is_executed from ≡ true → Transition from DocumentStatus.completed

module _ {A : Type 0} where
  pub bind-ok :
      (m : Action A) (f : A → Action Document) (s : Session) (d' : Document)
      → ((m >>= f) s).0 ≡ ok d'
      → (a : A) × ((m s).0 ≡ ok a) × ((f a (m s).1).0 ≡ ok d')
  unfolding ◌>>=◌
  bind-ok m f s d' h = go (m s).0 (m s).1 h
    where
      go :
          (r : Result A) (t : Session)
          → (continue r f t).0 ≡ ok d'
          → (a : A) × (r ≡ ok a) × ((f a t).0 ≡ ok d')
      go (ok a) t h = (a, refl, h)
      go (err e) t h = absurd cc

-- An action that can return only one value.
pub record Yields {A : Type 0} (a : A) (m : Action A) : Type 0 where
  pub at : (s : Session) (b : A) → (m s).0 ≡ ok b → a ≡ b

pub Yields-pure : {A : Type 0} (a : A) → Yields a (pure a)
unfolding pure
Yields-pure a = record { at = λ s b h. cc }

module _ {A B : Type 0} where
  pub Yields-bind :
      (b : B) (m : Action A) (f : A → Action B) → ((a : A) → Yields b (f a)) → Yields b (m >>= f)
  unfolding ◌>>=◌
  Yields-bind b m f rest = record { at = λ s c h. go s c (m s).0 (m s).1 h }
    where
      go : (s : Session) (c : B) (r : Result A) (t : Session) → (continue r f t).0 ≡ ok c → b ≡ c
      go s c (ok a) t h = (rest a).at t c h
      go s c (err e) t h = absurd cc

pub not-not : (b : Bool) → not b ≡ false → b ≡ true
not-not true h = refl
not-not false h = absurd cc

pub saved :
    (d : Document) (save publish : Action (Unit {0})) → Yields d (save >> (publish >> pure d))
saved d save publish = Yields-bind d save _ (λ _. Yields-bind d publish _ (λ _. Yields-pure d))

-- The step that an action makes from a document that was read.
pub record Steps (d : Document) (m : Action Document) : Type 0 where
  pub at : (s : Session) (d' : Document) → (m s).0 ≡ ok d' → Transition d.status d'.status

pub Steps-to :
    (d : Document) (d' : Document) (m : Action Document)
    → Yields d' m
    → Transition d.status d'.status
    → Steps d m
Steps-to d d' m yields step = record {
  at = λ s x h. subst (λ y. Transition d.status y.status) (yields.at s x h) step;
}

-- Behind a guard, the step may use what the guard lets pass.
pub Steps-guard :
    (d : Document) (b : Bool) (e : Error) (m : Action Document)
    → (b ≡ false → Steps d m)
    → Steps d (raise_if b e >> m)
unfolding ◌>>=◌
Steps-guard d true e m rest = record { at = λ s x h. absurd cc }
Steps-guard d false e m rest = record { at = (rest refl).at }

pub Steps-if :
    (d : Document) (b : Bool) (m n : Action Document)
    → (b ≡ true → Steps d m)
    → (b ≡ false → Steps d n)
    → Steps d (if b then m else n)
Steps-if d true m n on_true on_false = on_true refl
Steps-if d false m n on_true on_false = on_false refl

module _ {A : Type 0} where
  pub Steps-checked :
      (d : Document) (r : Result A) (f : A → Action Document)
      → ((a : A) → Steps d (f a))
      → Steps d (lift r >>= f)
  unfolding ◌>>=◌
  Steps-checked d (ok a) f rest = record { at = (rest a).at }
  Steps-checked d (err e) f rest = record { at = λ s x h. absurd cc }

pub Steps-lift :
    (d : Document) (r : Result Document) (f : Document → Action Document)
    → ((a : Document) → r ≡ ok a → Steps d (f a))
    → Steps d (lift r >>= f)
unfolding ◌>>=◌
Steps-lift d (ok a) f rest = record { at = (rest a refl).at }
Steps-lift d (err e) f rest = record { at = λ s x h. absurd cc }
