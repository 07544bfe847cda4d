-- ===== src/Locking/Redis.antt =====
-- What the locks use of Redis, for one key: the commands as functions of a state of the server, and
-- what their documentation says of them. The server is not part of the repository.
use wms_core.Base.{ℕ, ◌≤◌, ◌+◌, ℤ, pos, ltb_ℤ, ◌≡◌, Bool, true, false, String, Option, none, some}

-- The commands on a key that holds a text and may expire.
pub record Redis (R : Type 0) : Type 0 where
  -- `GET`
  pub get : R → Option String
  -- `SET key value EX seconds NX`, which answers whether it set the key
  pub set_nx : String → ℤ → R → Bool × R
  -- `DEL`
  pub del : R → R
  -- `TTL`, below zero where the key has no expiry
  pub ttl : R → ℤ
  -- `EXPIRE`
  pub expire : ℤ → R → R

-- A key that is not there is set, a key that is there is left alone; a positive expiry leaves the
-- value.
pub record IsRedis {R : Type 0} (redis : Redis R) : Type 0 where
  pub sets_free_key :
      (r : R) (value : String) (seconds : ℤ)
      → redis.get r ≡ none
      → ((redis.set_nx value seconds r).0 ≡ true)
        × (redis.get (redis.set_nx value seconds r).1 ≡ some value)
  pub leaves_taken_key :
      (r : R) (value old : String) (seconds : ℤ)
      → redis.get r ≡ some old
      → redis.set_nx value seconds r ≡ (false, r)
  pub deletes : (r : R) → redis.get (redis.del r) ≡ none
  pub expiry_keeps_value :
      (r : R) (seconds : ℤ)
      → ltb_ℤ (pos 0) seconds ≡ true
      → redis.get (redis.expire seconds r) ≡ redis.get r

-- The commands on a key that holds a sorted set, whose members are texts with numbers as scores.
pub record SortedSet (R : Type 0) : Type 0 where
  -- `ZREMRANGEBYSCORE key 0 top`
  pub remove_up_to : ℤ → R → R
  -- `ZCARD`
  pub card : R → ℕ
  -- `ZADD key score member`
  pub add : ℤ → String → R → R
  -- `ZREM key member`, which answers whether there was such a member
  pub remove : String → R → Bool × R

-- What the commands do to the number of members.
pub record IsSortedSet {R : Type 0} (set : SortedSet R) : Type 0 where
  pub range_removes : (r : R) (top : ℤ) → set.card (set.remove_up_to top r) ≤ set.card r
  pub adds_at_most_one :
      (r : R) (score : ℤ) (member : String) → set.card (set.add score member r) ≤ set.card r + 1
  pub removes : (r : R) (member : String) → set.card (set.remove member r).1 ≤ set.card r
