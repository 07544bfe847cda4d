-- ===== src/Locking/Steps.antt =====
-- What the objects of one key can do together, step by step.
use wms_core.Base.{
  ℕ, ◌==◌, ℤ, pos, ltb_ℤ, ◌≡◌, Bool, true, String, Option, none, some, if◌then◌else◌,
}
use wms_core.Locking.Redis.{Redis}
use wms_core.Locking.Lock.{
  World, Outcome, extension_of, attempt, delete_own, send_release, receive_release, release, extend,
}

-- The objects with the answers that are on their way to a `release`.
pub record State (R : Type 0) : Type 0 where
  pub world : World R
  pub answer : ℕ → Option Bool

abbrev pub set_answer : ℕ → Option Bool → (ℕ → Option Bool) → ℕ → Option Bool
set_answer c answer answers d = if d == c then answer else answers d

-- The object has the lock: its flag is set and it is not about to be reset.
abbrev pub HasLock : {R : Type 0} → State R → ℕ → Type 0
HasLock s c = (s.world.acquired c ≡ true) × (s.answer c ≡ none)

module _ {R : Type 0} (redis : Redis R) (identifier : ℕ → String) where
  -- A call by any of the objects that waits for no answer. An extension is by a positive time, and
  -- may end in every way; a `release` is sent and its answer is received, or the request is lost.
  pub data Step : State R → State R → Type 0 where
    attempts :
        {s : State R} (ttl : ℤ) (c : ℕ)
        → s.answer c ≡ none
        → Step s (record s { world = (attempt redis identifier ttl c s.world).1 })
    sends :
        {s : State R} (c : ℕ)
        → s.answer c ≡ none
        → s.world.acquired c ≡ true
        → Step s (record {
          world = send_release redis identifier c s.world;
          answer = set_answer c (some (delete_own redis identifier c s.world.server).0) s.answer;
        })
    receives :
        {s : State R} (c : ℕ) (deleted : Bool)
        → s.answer c ≡ some deleted
        → Step s (record {
          world = receive_release redis identifier deleted c s.world;
          answer = set_answer c none s.answer;
        })
    loses :
        {s : State R} (c : ℕ)
        → s.answer c ≡ none
        → Step s (record s { world = (release redis identifier Outcome.lost_request c s.world).1 })
    extends :
        {s : State R} (outcome : Outcome) (additional_ttl : Option ℤ) (ttl : ℤ) (c : ℕ)
        → s.answer c ≡ none
        → ltb_ℤ (pos 0) (extension_of additional_ttl ttl) ≡ true
        → Step s
            (record s { world = (extend redis identifier outcome additional_ttl ttl c s.world).1 })

  -- Steps of any objects, one after the other.
  pub data Run : State R → State R → Type 0 where
    stay : {s : State R} → Run s s
    then_step : {r s t : State R} → Run r s → Step s t → Run r t
