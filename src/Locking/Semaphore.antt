-- ===== src/Locking/Semaphore.antt =====
-- `Semaphore`: the objects of one key, whose permits are the members of a sorted set with the time at
-- which they end.
use wms_core.Base.{
  ℕ, ◌≤◌, ltb, ℤ, negsuc, ◌+ℤ◌, Bool, true, false, String, Bool-cases, inl, inr, if◌then◌else◌,
  List, [], ◌∷◌, arith,
}
use wms_core.Locking.Redis.{SortedSet, IsSortedSet}
use wms_core.Locking.Lock.{World, set_flag, set_server}

-- A call by one of the objects: its time and the `ttl` of the object, and the object.
pub data Call : Type 0 where
  acquires : ℤ → ℤ → ℕ → Call
  releases : ℕ → Call

module _ {R : Type 0} (set : SortedSet R) (identifier : ℕ → String) (max_concurrent : ℕ) where
  -- The script of `acquire`, at a time `now`.
  unfoldable pub add_permit : ℤ → ℤ → ℕ → R → Bool × R
  add_permit now ttl c r =
      let r' = set.remove_up_to (now +ℤ negsuc 0) r in
      if ltb (set.card r') max_concurrent
      then (true, set.add (now +ℤ ttl) (identifier c) r')
      else (false, r')

  unfoldable pub acquire : ℤ → ℤ → ℕ → World R → Bool × World R
  unfolding add_permit
  acquire now ttl c w =
      let (success, r) = add_permit now ttl c w.server in
      (success, if success then set_flag c true (set_server r w) else set_server r w)

  unfoldable pub release : ℕ → World R → Bool × World R
  release c w =
      let (removed, r) = set.remove (identifier c) w.server in
      if w.acquired c
      then (removed, if removed then set_flag c false (set_server r w) else set_server r w)
      else (false, w)

  -- The calls of all objects, in the order in which they reach the server.
  unfoldable pub calls : List Call → World R → World R
  unfolding acquire release
  calls [] w = w
  calls (Call.acquires now ttl c ∷ rest) w = calls rest (acquire now ttl c w).1
  calls (Call.releases c ∷ rest) w = calls rest (release c w).1

module _ {R : Type 0} (set : SortedSet R) (laws : IsSortedSet set) (identifier : ℕ → String)
    (max_concurrent : ℕ) where
  acquire_bounded :
      (now ttl : ℤ) (c : ℕ) (w : World R)
      → set.card w.server ≤ max_concurrent
      → set.card (acquire set identifier max_concurrent now ttl c w).1.server ≤ max_concurrent
  unfolding acquire add_permit
  acquire_bounded now ttl c w h =
      elim (Bool-cases
        (ltb (set.card (set.remove_up_to (now +ℤ negsuc 0) w.server)) max_concurrent)) [
          | inl e ↦ rw e (
              ground (
                arith,
                e,
                laws.adds_at_most_one (set.remove_up_to (now +ℤ negsuc 0) w.server) (now +ℤ ttl)
                    (identifier c),
              ))
          | inr e ↦ rw e (ground (arith, h, laws.range_removes w.server (now +ℤ negsuc 0)))
        ]

  release_bounded :
      (c : ℕ) (w : World R)
      → set.card w.server ≤ max_concurrent
      → set.card (release set identifier max_concurrent c w).1.server ≤ max_concurrent
  unfolding release
  release_bounded c w h = ground (arith, h, laws.removes w.server (identifier c))

  -- Whatever calls reach the server in whatever order and at whatever times, there are never more
  -- permits than `max_concurrent`, if there were not more before.
  pub calls-card :
      (trace : List Call) (w : World R)
      → set.card w.server ≤ max_concurrent
      → set.card (calls set identifier max_concurrent trace w).server ≤ max_concurrent
  unfolding calls
  calls-card [] w h = h
  calls-card (Call.acquires now ttl c ∷ rest) w h =
      calls-card rest (acquire set identifier max_concurrent now ttl c w).1
        (acquire_bounded now ttl c w h)
  calls-card (Call.releases c ∷ rest) w h =
      calls-card rest (release set identifier max_concurrent c w).1 (release_bounded c w h)
