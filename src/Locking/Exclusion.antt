-- ===== src/Locking/Exclusion.antt =====
-- Mutual exclusion: what the objects of one key can reach together while nothing expires.
use wms_core.Base.{
  ℕ, ◌==◌, ==_iff, ℤ, pos, ◌+ℤ◌, ltb_ℤ, ◌≡◌, ◌≢◌, refl, sym, ap, ◌∙◌, Bool, true, false, String,
  eq_iff, Option, none, some, Bool-cases, Option-cases, inl, inr, int_laws,
}
use wms_core.Locking.Redis.{Redis, IsRedis}
use wms_core.Locking.Lock.{
  World, Outcome, holds, extension_of, attempt, delete_own, send_release, receive_release, release,
  extend_own, extend,
}
use wms_core.Locking.Steps.{State, HasLock, Step, Run, set_answer}

module _ {R : Type 0} (redis : Redis R) (identifier : ℕ → String) where
  -- The key holds the identifier of every object that has the lock, and an answer on its way tells an
  -- object that its key was deleted.
  pub record IsOwned (s : State R) : Type 0 where
    pub owner : (c : ℕ) → HasLock s c → redis.get s.world.server ≡ some (identifier c)
    pub coming : (c : ℕ) (deleted : Bool) → s.answer c ≡ some deleted → deleted ≡ true

holds-some : (o : Option String) (i : String) → holds o i ≡ true → o ≡ some i
holds-some none i h = absurd cc
holds-some (some v) i h = ap some ((eq_iff v i).0 h)

some_injective : {A : Type 0} {a b : A} → some a ≡ some b → a ≡ b
some_injective h = cc

none-some : {A : Type 0} {a : A} → none ≡ some a → ⊥
none-some h = absurd cc

false-true : false ≡ true → ⊥
false-true h = absurd cc

positive_sum :
    (a b : ℤ) → ltb_ℤ a (pos 0) ≡ false → ltb_ℤ (pos 0) b ≡ true → ltb_ℤ (pos 0) (a +ℤ b) ≡ true
positive_sum a b h k = grind int_laws

module _ {R : Type 0} (redis : Redis R) (laws : IsRedis redis) (identifier : ℕ → String)
    (distinct : (c d : ℕ) → identifier c ≡ identifier d → c ≡ d) where
  -- A step that leaves the value of the key, the flags and the answers.
  same_key :
      (s : State R) (w : World R)
      → redis.get w.server ≡ redis.get s.world.server
      → w.acquired ≡ s.world.acquired
      → IsOwned redis identifier s
      → IsOwned redis identifier (record s { world = w })
  same_key s w same flags owned = record {
    owner = λ c h. same ∙ owned.owner c (ap (λ f. f c) (sym flags) ∙ h.0, h.1);
    coming = owned.coming;
  }

  attempt-IsOwned :
      (ttl : ℤ) (c : ℕ) (s : State R)
      → IsOwned redis identifier s
      → IsOwned redis identifier (record s { world = (attempt redis identifier ttl c s.world).1 })
  unfolding attempt
  attempt-IsOwned ttl c s owned = elim (Option-cases (redis.get s.world.server)) [
    | inl free ↦
        let (set, now) = laws.sets_free_key s.world.server (identifier c) ttl free in
        rw set (record {
          owner = λ d h. elim (Bool-cases (d == c)) [
            | inl e ↦ now ∙ ap (λ x. some (identifier x)) (sym ((==_iff d c).0 e))
            | inr e ↦ absurd (none-some (sym free ∙ owned.owner d (rw e at h.0, h.1)))
          ];
          coming = owned.coming;
        })
    | inr (old, taken) ↦
        rw (laws.leaves_taken_key s.world.server (identifier c) old ttl taken)
          (same_key s s.world refl refl owned)
  ]

  -- The key is there and is the object's own, so the script deletes it.
  deletes_own :
      (c : ℕ) (s : State R)
      → IsOwned redis identifier s
      → HasLock s c
      → delete_own redis identifier c s.world.server ≡ (true, redis.del s.world.server)
  unfolding delete_own
  deletes_own c s owned h = rw (owned.owner c h, (eq_iff (identifier c) (identifier c)).1 refl) refl

  send-IsOwned :
      (c : ℕ) (s : State R)
      → s.answer c ≡ none
      → s.world.acquired c ≡ true
      → IsOwned redis identifier s
      → IsOwned redis identifier (record {
        world = send_release redis identifier c s.world;
        answer = set_answer c (some (delete_own redis identifier c s.world.server).0) s.answer;
      })
  send-IsOwned c s waits has owned = rw (deletes_own c s owned (has, waits)) (record {
    owner = λ d h. elim (Bool-cases (d == c)) [
      | inl e ↦ absurd (none-some (sym (rw e at h.1)))
      | inr e ↦ absurd (
          differs d e (
            distinct d c (
              some_injective
                (sym (owned.owner d (h.0, rw e at h.1)) ∙ owned.owner c (has, waits)))))
    ];
    coming = λ d deleted h. elim (Bool-cases (d == c)) [
      | inl e ↦ some_injective (sym (rw e at h))
      | inr e ↦ owned.coming d deleted (rw e at h)
    ];
  })
    where
      differs : (d : ℕ) → (d == c) ≡ false → d ≡ c → ⊥
      differs d e same = absurd (cc (e, (==_iff d c).1 same))

  receive-IsOwned :
      (c : ℕ) (deleted : Bool) (s : State R)
      → s.answer c ≡ some deleted
      → IsOwned redis identifier s
      → IsOwned redis identifier (record {
        world = receive_release redis identifier deleted c s.world;
        answer = set_answer c none s.answer;
      })
  receive-IsOwned c deleted s came owned = rw (owned.coming c deleted came) (record {
    owner = λ d h. elim (Bool-cases (d == c)) [
      | inl e ↦ absurd (false-true (rw e at h.0))
      | inr e ↦ owned.owner d (rw e at h.0, rw e at h.1)
    ];
    coming = λ d b h. elim (Bool-cases (d == c)) [
      | inl e ↦ absurd (none-some (rw e at h))
      | inr e ↦ owned.coming d b (rw e at h)
    ];
  })

  lose-IsOwned :
      (c : ℕ) (s : State R)
      → IsOwned redis identifier s
      → IsOwned redis identifier
          (record s { world = (release redis identifier Outcome.lost_request c s.world).1 })
  unfolding release
  lose-IsOwned c s owned = elim (Bool-cases (s.world.acquired c)) [
    | inl e ↦ rw e (same_key s s.world refl refl owned)
    | inr e ↦ rw e (same_key s s.world refl refl owned)
  ]

  -- The script of `extend` leaves the value of the key.
  extend_own-get :
      (extension : ℤ) (c : ℕ) (r : R)
      → ltb_ℤ (pos 0) extension ≡ true
      → redis.get (extend_own redis identifier extension c r).1 ≡ redis.get r
  unfolding extend_own
  extend_own-get extension c r positive = elim (Bool-cases (holds (redis.get r) (identifier c))) [
    | inr u ↦ rw u refl
    | inl u ↦ elim (Bool-cases (ltb_ℤ (redis.ttl r) (pos 0))) [
      | inl v ↦ rw (u, v) (laws.expiry_keeps_value r extension positive)
      | inr v ↦
          rw (u, v)
            (laws.expiry_keeps_value r (redis.ttl r +ℤ extension)
              (positive_sum (redis.ttl r) extension v positive))
    ]
  ]

  extend-IsOwned :
      (outcome : Outcome) (additional_ttl : Option ℤ) (ttl : ℤ) (c : ℕ) (s : State R)
      → ltb_ℤ (pos 0) (extension_of additional_ttl ttl) ≡ true
      → IsOwned redis identifier s
      → IsOwned redis identifier
          (record s { world = (extend redis identifier outcome additional_ttl ttl c s.world).1 })
  unfolding extend
  extend-IsOwned outcome additional_ttl ttl c s positive owned =
      elim outcome
        as (λ o.
          IsOwned redis identifier
            (record s { world = (extend redis identifier o additional_ttl ttl c s.world).1 })) [
              | Outcome.answered ↦ elim (Bool-cases (s.world.acquired c)) [
                | inr e ↦ rw e (same_key s s.world refl refl owned)
                | inl e ↦ rw e (same_key s _ kept refl owned)
              ]
              | Outcome.lost_request ↦ elim (Bool-cases (s.world.acquired c)) [
                | inr e ↦ rw e (same_key s s.world refl refl owned)
                | inl e ↦ rw e (same_key s s.world refl refl owned)
              ]
              | Outcome.lost_answer ↦ elim (Bool-cases (s.world.acquired c)) [
                | inr e ↦ rw e (same_key s s.world refl refl owned)
                | inl e ↦ rw e (same_key s _ kept refl owned)
              ]
            ]
    where
      kept :
          redis.get
            (extend_own redis identifier (extension_of additional_ttl ttl) c s.world.server).1
          ≡ redis.get s.world.server
      kept = extend_own-get (extension_of additional_ttl ttl) c s.world.server positive

  Run-IsOwned :
      {r s : State R}
      → Run redis identifier r s
      → IsOwned redis identifier r
      → IsOwned redis identifier s
  Run-IsOwned Run.stay owned = owned
  Run-IsOwned (Run.then_step run (Step.attempts {s} ttl c _)) owned =
      attempt-IsOwned ttl c s (Run-IsOwned run owned)
  Run-IsOwned (Run.then_step run (Step.sends {s} c waits has)) owned =
      send-IsOwned c s waits has (Run-IsOwned run owned)
  Run-IsOwned (Run.then_step run (Step.receives {s} c deleted came)) owned =
      receive-IsOwned c deleted s came (Run-IsOwned run owned)
  Run-IsOwned (Run.then_step run (Step.loses {s} c _)) owned =
      lose-IsOwned c s (Run-IsOwned run owned)
  Run-IsOwned (Run.then_step run (Step.extends {s} outcome a ttl c _ positive)) owned =
      extend-IsOwned outcome a ttl c s positive (Run-IsOwned run owned)

  -- From a state in which no object has the lock and no answer is on its way, the steps of any objects
  -- in any order reach only states in which no two objects have the lock, also where others work
  -- while the answer to a `release` is on its way, where requests of `release` are lost and where
  -- extensions raise. It asks that Redis drops no key for its age, that no `release` loses the
  -- answer to a script that ran, that extensions are by positive times, that an object calls one
  -- method at a time, and that the objects' identifiers differ.
  pub at_most_one_holder :
      {r s : State R}
      → ((c : ℕ) → (r.world.acquired c ≡ false) × (r.answer c ≡ none))
      → Run redis identifier r s
      → (c d : ℕ) → c ≢ d
      → HasLock s c
      → ¬ HasLock s d
  at_most_one_holder idle run c d apart hc hd =
      let owned = Run-IsOwned run (record {
        owner = λ x h. absurd (false-true (sym ((idle x).0) ∙ h.0));
        coming = λ x b h. absurd (none-some (sym ((idle x).1) ∙ h));
      }) in
      apart (distinct c d (some_injective (sym (owned.owner c hc) ∙ owned.owner d hd)))
