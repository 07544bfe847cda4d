-- ===== src/Gateway/IngestBuffer/Progress.antt =====
-- The worker gets through the queue.
use wms_core.Base.{
  ℕ, zero, suc, ◌≤◌, ltb, ◌≡◌, refl, sym, ap, ◌∙◌, true, String, List, [], ◌∷◌, ◌++◌, append-nil,
  length, Bool-cases, inl, inr, arith,
}
use wms_core.Gateway.IngestBuffer.{
  Transport, Worker, State, take_event, drain, wake, flush, finish, turns,
}
use wms_core.Gateway.IngestBuffer.Order.{
  IsReliable, held, events_of, take-events, wake-events, finish-events,
}

length-drain : (n : ℕ) (batch queue : List String) → length (drain n batch queue).1 ≤ length queue
unfolding drain
length-drain n batch [] = ground arith
length-drain n batch (event ∷ queue) = elim (Bool-cases (ltb (length batch) n)) [
  | inl e ↦ rw e (ground (arith, length-drain n (batch ++ event ∷ []) queue))
  | inr e ↦ rw e (ground arith)
]

module _ {T : Type 0} {transport : Transport T} {taken : T → List String}
    (reliable : IsReliable transport taken) where
  turn_keeps :
      (batch_size : ℕ) (s : State T)
      → events_of reliable (finish transport (wake batch_size (take_event s)))
        ≡ events_of reliable s
  turn_keeps batch_size s =
      finish-events reliable (wake batch_size (take_event s))
      ∙ wake-events reliable batch_size (take_event s)
      ∙ take-events reliable s

  -- A state between two turns.
  abbrev between : List String → T → State T
  between queue t = record { queue = queue; running = true; worker = Worker.waiting; sink = t }

  -- A turn takes at least one event from a queue that has one.
  turns_drain :
      (batch_size rounds : ℕ) (queue : List String) (t : T)
      → length queue ≤ rounds
      → (t' : T) × (turns transport batch_size rounds (between queue t) ≡ between [] t')
  unfolding turns take_event wake finish
  turns_drain batch_size zero [] t h = (t, refl)
  turns_drain batch_size zero (event ∷ queue) t h = absurd (ground (arith, h))
  turns_drain batch_size (suc n) [] t h = turns_drain batch_size n [] t (ground arith)
  turns_drain batch_size (suc n) (event ∷ queue) t h =
      turns_drain batch_size n (drain batch_size (event ∷ []) queue).1
        (flush transport (drain batch_size (event ∷ []) queue).0 t)
        (ground (arith, h, length-drain batch_size (event ∷ []) queue))

  turns_keep :
      (batch_size rounds : ℕ) (s : State T)
      → events_of reliable (turns transport batch_size rounds s) ≡ events_of reliable s
  unfolding turns
  turns_keep batch_size zero s = refl
  turns_keep batch_size (suc n) s =
      turns_keep batch_size n (finish transport (wake batch_size (take_event s)))
      ∙ turn_keeps batch_size s

  same_state :
      (s : State T) → s.running ≡ true → s.worker ≡ Worker.waiting → s ≡ between s.queue s.sink
  same_state s run waits =
      λ i. record { queue = s.queue; running = run i; worker = waits i; sink = s.sink }

  -- With a transport that takes every batch in full, and with no event added and no stop meanwhile: a
  -- worker that waits on a running buffer hands over the whole queue, in its order, within as many
  -- turns as the queue has events, and waits again then.
  pub worker_drains_queue :
      (batch_size rounds : ℕ) (s : State T)
      → s.running ≡ true
      → s.worker ≡ Worker.waiting
      → length s.queue ≤ rounds
      → ((turns transport batch_size rounds s).queue ≡ [])
        × ((turns transport batch_size rounds s).worker ≡ Worker.waiting)
        × (taken (turns transport batch_size rounds s).sink ≡ taken s.sink ++ s.queue)
  worker_drains_queue batch_size rounds s run waits enough =
      let (t', e) = turns_drain batch_size rounds s.queue s.sink enough in
      let known : turns transport batch_size rounds s ≡ between [] t' =
        ap (turns transport batch_size rounds) (same_state s run waits) ∙ e in
      (
        ap (λ x. x.queue) known,
        ap (λ x. x.worker) known,
        ap (λ x. taken x.sink) known
            ∙ sym (append-nil (taken t'))
            ∙ sym (ap (events_of reliable) known)
            ∙ turns_keep batch_size rounds s
            ∙ ap (λ w. taken s.sink ++ (held w ++ s.queue)) waits,
      )
