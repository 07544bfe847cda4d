-- ===== src/Gateway/IngestBuffer/Order.antt =====
-- What each step of the buffer does to the events in it.
use wms_core.Base.{
  ℕ, ltb, leb, ◌≡◌, refl, sym, ap, ◌∙◌, Bool, true, false, ◌&&◌, String, none, some, List, [], ◌∷◌,
  ◌++◌, append-nil, append_assoc, length, Bool-cases, inl, inr, if◌then◌else◌,
}
use wms_core.Gateway.IngestBuffer.{
  Transport, Worker, State, start, add_event, take_event, drain, wake, flush, finish,
  flush_remaining,
}

-- A transport that takes every batch whole, and shows the events it has taken in order.
pub record IsReliable {T : Type 0} (transport : Transport T) (taken : T → List String)
    : Type 0 where
  pub accepts :
      (batch : List String) (t : T)
      → ((transport.xadd_batch batch t).0 ≡ true)
        × (taken (transport.xadd_batch batch t).1 ≡ taken t ++ batch)

-- The batch that the worker has in its hands.
abbrev pub held : Worker → List String
held Worker.absent = []
held Worker.waiting = []
held (Worker.sleeping batch) = batch
held (Worker.sending batch) = batch

-- There is a worker only while the buffer runs.
abbrev pub IsIdleUnlessRunning : {T : Type 0} → State T → Type 0
IsIdleUnlessRunning s = s.running ≡ false → s.worker ≡ Worker.absent

drain-keeps :
    (n : ℕ) (batch queue : List String)
    → (drain n batch queue).0 ++ (drain n batch queue).1 ≡ batch ++ queue
unfolding drain
drain-keeps n batch [] = refl
drain-keeps n batch (event ∷ queue) = elim (Bool-cases (ltb (length batch) n)) [
  | inl e ↦ rw e (drain-keeps n (batch ++ event ∷ []) queue ∙ append_assoc batch (event ∷ []) queue)
  | inr e ↦ rw e refl
]

module _ {A : Type 0} where
  pub some_injective : {a b : A} → some a ≡ some b → a ≡ b
  some_injective h = cc

  pub some_is_not_none : {a : A} → none ≡ some a → ⊥
  some_is_not_none h = absurd cc

module _ {T : Type 0} {transport : Transport T} {taken : T → List String}
    (reliable : IsReliable transport taken) where
  flush-takes : (batch : List String) (t : T) → taken (flush transport batch t) ≡ taken t ++ batch
  unfolding flush
  flush-takes [] t = sym (append-nil (taken t))
  flush-takes (event ∷ batch) t =
      let (sent, order) = reliable.accepts (event ∷ batch) t in rw sent order

  pub flush_remaining-takes :
      (n : ℕ) (batch queue : List String) (t : T)
      → taken (flush_remaining transport n batch queue t) ≡ taken t ++ (batch ++ queue)
  unfolding flush_remaining
  flush_remaining-takes n batch [] t =
      flush-takes batch t ∙ ap (λ x. taken t ++ x) (sym (append-nil batch))
  flush_remaining-takes n batch (event ∷ queue) t =
      elim (Bool-cases (leb n (length (batch ++ event ∷ [])))) [
        | inl e ↦ rw e (
            flush_remaining-takes n [] queue (flush transport (batch ++ event ∷ []) t)
            ∙ taken_and_rest)
        | inr e ↦ rw e (
            flush_remaining-takes n (batch ++ event ∷ []) queue t
            ∙ ap (λ x. taken t ++ x) (append_assoc batch (event ∷ []) queue))
      ]
    where
      taken_and_rest :
          taken (flush transport (batch ++ event ∷ []) t) ++ queue
          ≡ taken t ++ (batch ++ event ∷ queue)
      taken_and_rest =
          ap (λ x. x ++ queue) (flush-takes (batch ++ event ∷ []) t)
          ∙ append_assoc (taken t) (batch ++ event ∷ []) queue
          ∙ ap (λ x. taken t ++ x) (append_assoc batch (event ∷ []) queue)

  -- The events of a state in their order: taken, held by the worker, queued.
  abbrev pub events_of : State T → List String
  events_of s = taken s.sink ++ (held s.worker ++ s.queue)

  pub take-events : (s : State T) → events_of (take_event s) ≡ events_of s
  unfolding take_event
  take-events s =
      elim s.worker
        as (λ w.
          events_of (take_event (record s { worker = w })) ≡ events_of (record s { worker = w })) [
            | Worker.waiting ↦
                elim s.queue
                  as (λ q.
                    events_of (take_event (record s { worker = Worker.waiting; queue = q }))
                    ≡ events_of (record s { worker = Worker.waiting; queue = q })) [
                      | [] ↦ refl
                      | _ ∷ _ ↦ refl
                    ]
            | _ ↦ refl
          ]

  pub wake-events : (n : ℕ) (s : State T) → events_of (wake n s) ≡ events_of s
  unfolding wake
  wake-events n s =
      elim s.worker
        as (λ w.
          events_of (wake n (record s { worker = w })) ≡ events_of (record s { worker = w })) [
            | Worker.sleeping batch ↦ ap (λ x. taken s.sink ++ x) (drain-keeps n batch s.queue)
            | _ ↦ refl
          ]

  pub finish-events : (s : State T) → events_of (finish transport s) ≡ events_of s
  unfolding finish
  finish-events s =
      elim s.worker
        as (λ w.
          events_of (finish transport (record s { worker = w }))
          ≡ events_of (record s { worker = w })) [
            | Worker.sending batch ↦
                ap (λ x. taken (flush transport batch s.sink) ++ (x ++ s.queue))
                  (none_held s.running)
                ∙ ap (λ x. x ++ s.queue) (flush-takes batch s.sink)
                ∙ append_assoc (taken s.sink) batch s.queue
            | _ ↦ refl
          ]
    where
      none_held : (b : Bool) → held (if b then Worker.waiting else Worker.absent) ≡ []
      none_held true = refl
      none_held false = refl

  pub add-events :
      (n : ℕ) (event : String) (s s' : State T)
      → add_event n event s ≡ some s'
      → events_of s' ≡ events_of s ++ event ∷ []
  unfolding add_event
  add-events n event s s' h = elim (Bool-cases (ltb 0 n && leb n (length s.queue))) [
    | inl e ↦ absurd (some_is_not_none (rw e at h))
    | inr e ↦
        ap events_of (sym (some_injective (rw e at h)))
        ∙ ap (λ x. taken s.sink ++ x) (sym (append_assoc (held s.worker) s.queue (event ∷ [])))
        ∙ sym (append_assoc (taken s.sink) (held s.worker ++ s.queue) (event ∷ []))
  ]

  pub start-events : (s : State T) → IsIdleUnlessRunning s → events_of (start s) ≡ events_of s
  unfolding start
  start-events s idle = elim (Bool-cases s.running) [
    | inl e ↦ rw e refl
    | inr e ↦ rw (e, idle e) refl
  ]
