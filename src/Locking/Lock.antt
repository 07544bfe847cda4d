-- ===== src/Locking/Lock.antt =====
-- `DistributedLock`: the objects of one key, each with an identifier of its own and the flag
-- `_acquired`. Time runs only in the server, and in the sleeps of `acquire`, where others
-- work; what `acquire` does where Redis raises is left out.
use wms_core.Base.{
  ℕ, zero, suc, ◌==◌, ℤ, pos, ◌+ℤ◌, ltb_ℤ, eqb_ℤ, Bool, true, false, String, str_eq, Option, none,
  some, if◌then◌else◌,
}
use wms_core.Locking.Redis.{Redis}

-- The server and the flags of all objects.
pub record World (R : Type 0) : Type 0 where
  pub server : R
  pub acquired : ℕ → Bool

module _ {R : Type 0} where
  -- `self._acquired = flag` of one object.
  abbrev pub set_flag : ℕ → Bool → World R → World R
  set_flag c flag w = record w { acquired = λ d. if d == c then flag else w.acquired d }

  abbrev pub set_server : R → World R → World R
  set_server r w = record w { server = r }

-- How a call of `eval` ends: with its answer, or with an exception, which the `except` of the method
-- catches, before the script ran or after it.
pub data Outcome : Type 0 where
  answered lost_request lost_answer : Outcome

-- `redis.call("GET", KEYS[1]) == ARGV[1]`
abbrev pub holds : Option String → String → Bool
holds none identifier = false
holds (some value) identifier = str_eq value identifier

-- `additional_ttl or self.ttl`
abbrev pub extension_of : Option ℤ → ℤ → ℤ
extension_of none ttl = ttl
extension_of (some seconds) ttl = if eqb_ℤ seconds (pos 0) then ttl else seconds

module _ {R : Type 0} (redis : Redis R) (identifier : ℕ → String) where
  -- One round of the loop of `acquire`.
  unfoldable pub attempt : ℤ → ℕ → World R → Bool × World R
  attempt ttl c w =
      let (success, r) = redis.set_nx (identifier c) ttl w.server in
      (success, if success then set_flag c true (set_server r w) else set_server r w)

  -- `acquire` with so many rounds left. `others` is what happens in the sleep before that many more;
  -- there is no sleep after the last round.
  unfoldable pub acquire : (ℕ → World R → World R) → ℤ → ℕ → ℕ → World R → Bool × World R
  unfolding attempt
  acquire others ttl zero c w = (false, w)
  acquire others ttl (suc zero) c w = attempt ttl c w
  acquire others ttl (suc (suc n)) c w =
      let (success, w') = attempt ttl c w in
      let rest = acquire others ttl (suc n) c (others (suc n) w') in
      if success then (true, w') else rest

  -- The script of `release`.
  unfoldable pub delete_own : ℕ → R → Bool × R
  delete_own c r = if holds (redis.get r) (identifier c) then (true, redis.del r) else (false, r)

  -- The call of `release` as the server runs it, and what the object does with the answer: others may
  -- work between the two.
  abbrev pub send_release : ℕ → World R → World R
  send_release c w = set_server (delete_own c w.server).1 w

  abbrev pub receive_release : Bool → ℕ → World R → World R
  receive_release deleted c w = if deleted then set_flag c false w else w

  -- With nobody at work between.
  unfoldable pub release : Outcome → ℕ → World R → Bool × World R
  unfolding delete_own
  release outcome c w =
      if w.acquired c
      then elim outcome [
        | answered ↦ (
          (delete_own c w.server).0,
          receive_release (delete_own c w.server).0 c (send_release c w),
        )
        | lost_request ↦ (false, w)
        | lost_answer ↦ (false, send_release c w)
      ]
      else (false, w)

  -- The script of `extend`: the new time to live, or 0.
  unfoldable pub extend_own : ℤ → ℕ → R → ℤ × R
  extend_own extension c r =
      if holds (redis.get r) (identifier c)
      then (if ltb_ℤ (redis.ttl r) (pos 0)
          then (extension, redis.expire extension r)
          else (redis.ttl r +ℤ extension, redis.expire (redis.ttl r +ℤ extension) r))
      else (pos 0, r)

  unfoldable pub extend : Outcome → Option ℤ → ℤ → ℕ → World R → Bool × World R
  unfolding extend_own
  extend outcome additional_ttl ttl c w =
      let (seconds, r) = extend_own (extension_of additional_ttl ttl) c w.server in
      if w.acquired c
      then elim outcome [
        | answered ↦ (if eqb_ℤ seconds (pos 0) then false else true, set_server r w)
        | lost_request ↦ (false, w)
        | lost_answer ↦ (false, set_server r w)
      ]
      else (false, w)
