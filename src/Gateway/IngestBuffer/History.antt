-- ===== src/Gateway/IngestBuffer/History.antt =====
-- What becomes of the events that the buffer accepted.
use wms_core.Base.{
  ℕ, ltb, leb, ◌≡◌, ◌≢◌, refl, sym, ap, ◌∙◌, true, false, ◌&&◌, String, some, List, [], ◌∷◌, ◌++◌,
  append_assoc, length, Bool-cases, inl, inr, arith,
}
use mathlib.Core.Path.{subst}
use wms_core.Gateway.IngestBuffer.{
  Transport, Worker, State, start, add_event, take_event, wake, finish, flush_remaining, cancel,
  stop,
}
use wms_core.Gateway.IngestBuffer.Order.{
  IsReliable, held, IsIdleUnlessRunning, some_injective, some_is_not_none, flush_remaining-takes,
  events_of, take-events, wake-events, finish-events, add-events, start-events,
}

module _ {T : Type 0} (transport : Transport T) (batch_size max_queue_size : ℕ) (t : T) where
  -- The states before `stop`, with the events that were accepted on the way.
  pub data Reached : List String → State T → Type 0 where
    new_buffer :
        Reached [] (record { queue = []; running = false; worker = Worker.absent; sink = t })
    starts : {log : List String} {s : State T} → Reached log s → Reached log (start s)
    adds :
        {log : List String} {s : State T} (event : String) (s' : State T)
        → Reached log s
        → add_event max_queue_size event s ≡ some s'
        → Reached (log ++ event ∷ []) s'
    takes : {log : List String} {s : State T} → Reached log s → Reached log (take_event s)
    wakes : {log : List String} {s : State T} → Reached log s → Reached log (wake batch_size s)
    finishes : {log : List String} {s : State T} → Reached log s → Reached log (finish transport s)

module _ {T : Type 0} {transport : Transport T} {taken : T → List String}
    (reliable : IsReliable transport taken) where
  start-IsIdle : (s : State T) → IsIdleUnlessRunning s → IsIdleUnlessRunning (start s)
  unfolding start
  start-IsIdle s idle h = elim (Bool-cases s.running) [
    | inl e ↦ absurd (ground (arith, e, rw e at h))
    | inr e ↦ absurd (ground (arith, rw e at h))
  ]

  add-IsIdle :
      (n : ℕ) (event : String) (s s' : State T)
      → add_event n event s ≡ some s'
      → IsIdleUnlessRunning s
      → IsIdleUnlessRunning s'
  unfolding add_event
  add-IsIdle n event s s' h idle = elim (Bool-cases (ltb 0 n && leb n (length s.queue))) [
    | inl e ↦ absurd (some_is_not_none (rw e at h))
    | inr e ↦ subst IsIdleUnlessRunning (some_injective (rw e at h)) idle
  ]

  keeps_idle :
      (s s' : State T)
      → s'.running ≡ s.running
      → (s.worker ≡ Worker.absent → s'.worker ≡ Worker.absent)
      → IsIdleUnlessRunning s
      → IsIdleUnlessRunning s'
  keeps_idle s s' same absent idle h = absent (idle (sym same ∙ h))

  take-running : (s : State T) → (take_event s).running ≡ s.running
  unfolding take_event
  take-running s =
      elim s.worker as (λ w. (take_event (record s { worker = w })).running ≡ s.running) [
        | Worker.waiting ↦
            elim s.queue
              as (λ q.
                (take_event (record s { worker = Worker.waiting; queue = q })).running
                ≡ s.running) [ [] ↦ refl | _ ∷ _ ↦ refl ]
        | _ ↦ refl
      ]

  wake-running : (n : ℕ) (s : State T) → (wake n s).running ≡ s.running
  unfolding wake
  wake-running n s =
      elim s.worker as (λ w. (wake n (record s { worker = w })).running ≡ s.running) [
        | Worker.waiting ↦ refl
        | _ ↦ refl
      ]

  finish-running : (s : State T) → (finish transport s).running ≡ s.running
  unfolding finish
  finish-running s =
      elim s.worker as (λ w. (finish transport (record s { worker = w })).running ≡ s.running) [
        | Worker.waiting ↦ refl
        | _ ↦ refl
      ]

  absent_stays :
      (n : ℕ) (s : State T)
      → s.worker ≡ Worker.absent
      → ((take_event s).worker ≡ Worker.absent)
        × ((wake n s).worker ≡ Worker.absent)
        × ((finish transport s).worker ≡ Worker.absent)
  unfolding take_event wake finish
  absent_stays n s h = rw h (refl, refl, refl)

  module _ (batch_size max_queue_size : ℕ) (t : T) where
    abbrev IsTracked : List String → State T → Type 0
    IsTracked log s = IsIdleUnlessRunning s × (events_of reliable s ≡ taken t ++ log)

    Reached-IsTracked :
        {log : List String} {s : State T}
        → Reached transport batch_size max_queue_size t log s
        → IsTracked log s
    Reached-IsTracked new_buffer = (λ h. refl, refl)
    Reached-IsTracked (starts {log} {s} r) =
        let (idle, order) = Reached-IsTracked r in
        (start-IsIdle s idle, start-events reliable s idle ∙ order)
    Reached-IsTracked (adds {log} {s} event s' r h) =
        let (idle, order) = Reached-IsTracked r in
        (
          add-IsIdle max_queue_size event s s' h idle,
          add-events reliable max_queue_size event s s' h
              ∙ ap (λ x. x ++ event ∷ []) order
              ∙ append_assoc (taken t) log (event ∷ []),
        )
    Reached-IsTracked (takes {log} {s} r) =
        let (idle, order) = Reached-IsTracked r in
        (
          keeps_idle s (take_event s) (take-running s) (λ h. (absent_stays batch_size s h).0) idle,
          take-events reliable s ∙ order,
        )
    Reached-IsTracked (wakes {log} {s} r) =
        let (idle, order) = Reached-IsTracked r in
        (
          keeps_idle s (wake batch_size s) (wake-running batch_size s)
              (λ h. (absent_stays batch_size s h).1) idle,
          wake-events reliable batch_size s ∙ order,
        )
    Reached-IsTracked (finishes {log} {s} r) =
        let (idle, order) = Reached-IsTracked r in
        (
          keeps_idle s (finish transport s) (finish-running s)
              (λ h. (absent_stays batch_size s h).2) idle,
          finish-events reliable s ∙ order,
        )

    -- With a transport that takes every batch, the buffer is a queue: in every state before `stop`,
    -- what Redis has got since the start, then the batch of the worker, then the queue are the
    -- accepted events, each once and in their order.
    pub buffer_keeps_order :
        {log : List String} {s : State T}
        → Reached transport batch_size max_queue_size t log s
        → taken s.sink ++ (held s.worker ++ s.queue) ≡ taken t ++ log
    buffer_keeps_order r = (Reached-IsTracked r).1

    -- With a transport that takes every batch: a `stop` of a running buffer whose worker is not in a
    -- call of Redis hands over the whole queue, and not the batch that the worker holds in its sleep:
    -- exactly these events are missing.
    pub stop_drops_held_batch :
        {log : List String} {s : State T}
        → Reached transport batch_size max_queue_size t log s
        → s.running ≡ true
        → ((batch : List String) → s.worker ≢ Worker.sending batch)
        → (taken (stop transport batch_size s).sink ≡ taken s.sink ++ s.queue)
          × (taken s.sink ++ (held s.worker ++ s.queue) ≡ taken t ++ log)
    unfolding stop
    stop_drops_held_batch {log} {s} r run apart = (
      rw run (
          ap (λ x. taken (flush_remaining transport batch_size [] s.queue x))
            (cancelled s.worker apart)
          ∙ flush_remaining-takes reliable batch_size [] s.queue s.sink),
      (Reached-IsTracked r).1,
    )
      where
        cancelled :
            (w : Worker)
            → ((batch : List String) → w ≢ Worker.sending batch)
            → cancel transport w s.sink ≡ s.sink
        cancelled (Worker.sending batch) never = absurd (never batch refl)
        cancelled Worker.absent never = refl
        cancelled Worker.waiting never = refl
        cancelled (Worker.sleeping batch) never = refl
