-- ===== src/Locking/Tests.antt =====
-- The locks on small servers: one text with the seconds it has left, and a list of scored members.
use wms_core.Base.{
  ℕ, ◌==◌, zero, suc, ◌≤◌, ◌+◌, ℤ, pos, ltb_ℤ, ◌≡◌, refl, ap, Bool, true, false, not, String,
  str_eq, Option, none, some, is_some, find, List, [], ◌∷◌, select, length, if◌then◌else◌, arith,
}
use wms_core.Locking.Redis.{Redis, IsRedis, SortedSet, IsSortedSet}
use wms_core.Locking.Lock.{World, Outcome, attempt, delete_own, send_release, release, extend}
use wms_core.Locking.Steps.{State, HasLock, Step, Run}
use wms_core.Locking.Exclusion.{at_most_one_holder}
use wms_core.Locking.Expiry.{expired_holder_changes_nothing}
use wms_core.Locking.Semaphore.{Call, calls, calls-card}

abbrev Entry : Type 0
Entry = Option (String × ℤ)

abbrev value_of : Entry → Option String
value_of none = none
value_of (some (value, seconds)) = some value

abbrev set_free : String → ℤ → Entry → Bool × Entry
set_free value seconds none = (true, some (value, seconds))
set_free value seconds (some old) = (false, some old)

abbrev seconds_of : Entry → ℤ
seconds_of none = pos 0
seconds_of (some (value, seconds)) = seconds

abbrev expire_in : ℤ → Entry → Entry
expire_in seconds none = none
expire_in seconds (some (value, _)) = if ltb_ℤ (pos 0) seconds then some (value, seconds) else none

abbrev server : Redis Entry
server = record {
  get = value_of;
  set_nx = set_free;
  del = λ r. none;
  ttl = seconds_of;
  expire = expire_in;
}

set_free_lem :
    (r : Entry) (value : String) (seconds : ℤ)
    → value_of r ≡ none
    → ((set_free value seconds r).0 ≡ true) × (value_of (set_free value seconds r).1 ≡ some value)
set_free_lem none value seconds h = (refl, refl)
set_free_lem (some old) value seconds h = absurd cc

set_taken_lem :
    (r : Entry) (value old : String) (seconds : ℤ)
    → value_of r ≡ some old
    → set_free value seconds r ≡ (false, r)
set_taken_lem none value old seconds h = absurd cc
set_taken_lem (some entry) value old seconds h = refl

expire_lem :
    (r : Entry) (seconds : ℤ)
    → ltb_ℤ (pos 0) seconds ≡ true
    → value_of (expire_in seconds r) ≡ value_of r
expire_lem none seconds h = refl
expire_lem (some (value, _)) seconds h = rw h refl

server-IsRedis : IsRedis server
server-IsRedis = record {
  sets_free_key = set_free_lem;
  leaves_taken_key = set_taken_lem;
  deletes = λ r. refl;
  expiry_keeps_value = expire_lem;
}

-- The identifiers "", "c", "cc" and so on.
abbrev with_first : String → String → String
with_first String.[] text = text
with_first (String.◌∷◌ c _) text = String.◌∷◌ c text

abbrev name : ℕ → String
name zero = ""
name (suc n) = with_first "c" (name n)

name_injective : (c d : ℕ) → name c ≡ name d → c ≡ d
name_injective zero zero h = refl
name_injective zero (suc d) h = absurd cc
name_injective (suc c) zero h = absurd cc
name_injective (suc c) (suc d) h = ap suc (name_injective c d (cc))

abbrev idle : World Entry
idle = record { server = none; acquired = λ c. false }

abbrev at_rest : State Entry
at_rest = record { world = idle; answer = λ c. none }

-- Object 1 takes the lock and releases it; before its answer comes, object 2 takes the lock.
abbrev taken : State Entry
taken = record at_rest { world = (attempt server name (pos 30) 1 idle).1 }

abbrev sent : State Entry
sent = record {
  world = send_release server name 1 taken.world;
  answer = λ d. if d == 1 then some (delete_own server name 1 taken.world.server).0 else none;
}

abbrev taken_over : State Entry
taken_over = record sent { world = (attempt server name (pos 30) 2 sent.world).1 }

handover : Run server name at_rest taken_over
unfolding attempt
handover =
    Run.then_step
      (Run.then_step (Run.then_step Run.stay (Step.attempts (pos 30) 1 refl))
        (Step.sends 1 refl refl))
      (Step.attempts (pos 30) 2 refl)

second_has_it : HasLock taken_over 2
unfolding attempt delete_own
second_has_it = (refl, refl)

at_most_one_holder_example : ¬ HasLock taken_over 1
at_most_one_holder_example =
    at_most_one_holder server server-IsRedis name name_injective (λ c. (refl, refl)) handover 2 1
      (λ h. ground (arith, h)) second_has_it

-- Object 1 had the lock and its key is gone.
abbrev expired : World Entry
expired = record idle { acquired = λ c. c == 1 }

abbrev with_taker : World Entry
with_taker = (attempt server name (pos 30) 2 expired).1

expired_holder_changes_nothing_example :
    ((attempt server name (pos 30) 2 expired).0 ≡ true)
    × (server.get with_taker.server ≡ some (name 2))
    × (with_taker.acquired 1 ≡ true)
    × (with_taker.acquired 2 ≡ true)
    × (release server name Outcome.answered 1 with_taker ≡ (false, with_taker))
    × (extend server name Outcome.answered none (pos 30) 1 with_taker ≡ (false, with_taker))
expired_holder_changes_nothing_example =
    expired_holder_changes_nothing server server-IsRedis name name_injective 1 2 (pos 30) (pos 30)
      none Outcome.answered expired with_taker (λ h. ground (arith, h)) refl refl refl

-- Members with the times at which their permits end.
abbrev Members : Type 0
Members = List (ℤ × String)

abbrev not_member : String → ℤ × String → Bool
not_member member (_, other) = not (str_eq other member)

abbrev after_time : ℤ → ℤ × String → Bool
after_time top (score, _) = ltb_ℤ top score

abbrev set : SortedSet Members
set = record {
  remove_up_to = λ top r. select (after_time top) r;
  card = length;
  add = λ score member r. (score, member) ∷ select (not_member member) r;
  remove =
      λ member r. (is_some (find (λ x. not (not_member member x)) r), select (not_member member) r);
}

length-select : (p : ℤ × String → Bool) (r : Members) → length (select p r) ≤ length r
unfolding select
length-select p [] = ground arith
length-select p (x ∷ r) = ground (arith, length-select p r)

add_lem :
    (r : Members) (score : ℤ) (member : String)
    → length ((score, member) ∷ select (not_member member) r) ≤ length r + 1
add_lem r score member = ground (arith, length-select (not_member member) r)

set-IsSortedSet : IsSortedSet set
set-IsSortedSet = record {
  range_removes = λ r top. length-select (after_time top) r;
  adds_at_most_one = add_lem;
  removes = λ r member. length-select (not_member member) r;
}

-- One permit for three objects: the second gets it once the first has given it back.
abbrev trace : List Call
trace =
    Call.acquires (pos 100) (pos 60) 1
    ∷ Call.acquires (pos 101) (pos 60) 2
    ∷ Call.releases 1
    ∷ Call.acquires (pos 102) (pos 60) 2
    ∷ []

abbrev no_permits : World Members
no_permits = record { server = []; acquired = λ c. false }

calls-card_example : length (calls set name 1 trace no_permits).server ≤ 1
calls-card_example = calls-card set set-IsSortedSet name 1 trace no_permits (ground arith)
