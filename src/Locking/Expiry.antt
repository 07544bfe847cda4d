-- ===== src/Locking/Expiry.antt =====
-- An object whose key ran out of time, and the one that took it.
use wms_core.Base.{
  ℕ, ◌==◌, ==_self, ℤ, ◌≡◌, ◌≢◌, refl, sym, ap, ◌∙◌, Bool, true, false, String, eq_iff, Option,
  none, some, Bool-cases, inl, inr, if◌then◌else◌,
}
use mathlib.Core.Path.{subst}
use wms_core.Locking.Redis.{Redis, IsRedis}
use wms_core.Locking.Lock.{World, Outcome, holds, attempt, delete_own, release, extend_own, extend}

module _ {R : Type 0} (redis : Redis R) (laws : IsRedis redis) (identifier : ℕ → String)
    (distinct : (c d : ℕ) → identifier c ≡ identifier d → c ≡ d) where
  not_owner : (c d : ℕ) → c ≢ d → holds (some (identifier d)) (identifier c) ≡ false
  not_owner c d apart = elim (Bool-cases (holds (some (identifier d)) (identifier c))) [
    | inl e ↦ absurd (apart (sym (distinct d c ((eq_iff (identifier d) (identifier c)).0 e))))
    | inr e ↦ e
  ]

  foreign_release :
      (c : ℕ) (outcome : Outcome) (w : World R)
      → w.acquired c ≡ true
      → holds (redis.get w.server) (identifier c) ≡ false
      → release redis identifier outcome c w ≡ (false, w)
  unfolding release delete_own
  foreign_release c Outcome.answered w had foreign = rw (had, foreign) refl
  foreign_release c Outcome.lost_request w had foreign = rw had refl
  foreign_release c Outcome.lost_answer w had foreign = rw (had, foreign) refl

  foreign_extend :
      (c : ℕ) (outcome : Outcome) (additional_ttl : Option ℤ) (ttl : ℤ) (w : World R)
      → w.acquired c ≡ true
      → holds (redis.get w.server) (identifier c) ≡ false
      → extend redis identifier outcome additional_ttl ttl c w ≡ (false, w)
  unfolding extend extend_own
  foreign_extend c Outcome.answered additional_ttl ttl w had foreign = rw (had, foreign) refl
  foreign_extend c Outcome.lost_request additional_ttl ttl w had foreign = rw had refl
  foreign_extend c Outcome.lost_answer additional_ttl ttl w had foreign = rw (had, foreign) refl

  -- An object that had the lock when its key expired, and another object that then takes the key:
  -- the taker's attempt succeeds, and however a later `release` or extension by the first one
  -- ends, it answers false and changes nothing, so that the key still names the taker.
  pub expired_holder_changes_nothing :
      (c d : ℕ) (ttl ttl' : ℤ) (additional_ttl : Option ℤ) (outcome : Outcome) (w w' : World R)
      → c ≢ d
      → w.acquired c ≡ true
      → redis.get w.server ≡ none
      → (attempt redis identifier ttl d w).1 ≡ w'
      → ((attempt redis identifier ttl d w).0 ≡ true)
        × (redis.get w'.server ≡ some (identifier d))
        × (w'.acquired c ≡ true)
        × (w'.acquired d ≡ true)
        × (release redis identifier outcome c w' ≡ (false, w'))
        × (extend redis identifier outcome additional_ttl ttl' c w' ≡ (false, w'))
  unfolding attempt
  expired_holder_changes_nothing c d ttl ttl' additional_ttl outcome w w' apart had free taken =
      let (set, now) = laws.sets_free_key w.server (identifier d) ttl free in
      let taker : record w {
        server = (redis.set_nx (identifier d) ttl w.server).1;
        acquired = λ x. if x == d then true else w.acquired x;
      }
          ≡ w' =
        rw set at taken in
      let owner : redis.get w'.server ≡ some (identifier d) =
        subst (λ v. redis.get v.server ≡ some (identifier d)) taker now in
      let still : w'.acquired c ≡ true =
        subst (λ v. v.acquired c ≡ true) taker (flag_kept (c == d)) in
      let foreign : holds (redis.get w'.server) (identifier c) ≡ false =
        ap (λ o. holds o (identifier c)) owner ∙ not_owner c d apart in
      (
        set,
        owner,
        still,
        subst (λ v. v.acquired d ≡ true) taker (rw (==_self d) refl),
        foreign_release c outcome w' still foreign,
        foreign_extend c outcome additional_ttl ttl' w' still foreign,
      )
    where
      flag_kept : (b : Bool) → (if b then true else w.acquired c) ≡ true
      flag_kept true = refl
      flag_kept false = had
