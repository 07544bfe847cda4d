-- ===== src/Gateway/IngestBuffer.antt =====
-- `IngestBuffer` of Services/api-gateway/src/api_gateway/ingest_buffer.py. Coroutines change over only
-- where they wait, so what a coroutine does between two waits is one step. The worker waits for an
-- event, in its sleep, and for Redis. `time.monotonic`, `task_done` and the log are left out.
pub mod Order
pub mod History
pub mod Progress
use wms_core.Base.{
  ℕ, zero, suc, ltb, leb, ◌==◌, Bool, true, false, ◌&&◌, not, String, Option, none, some, List, [],
  ◌∷◌, ◌++◌, length, is_nil, if◌then◌else◌,
}

-- What the buffer hands events to, with what it has taken so far as a state: Redis and the publisher
-- of `shared_utils`, which are not part of the repository.
pub record Transport (T : Type 0) : Type 0 where
  -- `redis_pool.xadd_batch(EVENT_STREAM, batch)`, which answers whether it came back without a raise
  pub xadd_batch : List String → T → Bool × T
  -- What a cancelled `xadd_batch` leaves.
  pub cancelled_batch : List String → T → T
  -- whether `get_publisher` comes back
  pub has_publisher : T → Bool
  -- the decoding and publishing of one event; an exception of it is passed over
  pub publish : String → T → T

-- Where the worker's task waits; the batch is its local variable.
pub data Worker : Type 0 where
  absent waiting : Worker
  sleeping sending : List String → Worker

pub record State (T : Type 0) : Type 0 where
  pub queue : List String
  pub running : Bool
  pub worker : Worker
  pub sink : T

module _ {T : Type 0} where
  unfoldable pub start : State T → State T
  start s = if s.running then s else record s { running = true; worker = Worker.waiting }

  -- `add_event`, where `queue.put` goes through; on a full queue it waits. A bound of 0 is none.
  unfoldable pub add_event : ℕ → String → State T → Option (State T)
  add_event max_queue_size event s =
      if ltb 0 max_queue_size && leb max_queue_size (length s.queue)
      then none
      else some (record s { queue = s.queue ++ event ∷ [] })

  abbrev pub take_from : List String → State T → State T
  take_from [] s = s
  take_from (event ∷ rest) s = record s { queue = rest; worker = Worker.sleeping (event ∷ []) }

  -- `item = await self.queue.get()` and on to the sleep; on an empty queue the worker waits on.
  unfoldable pub take_event : State T → State T
  take_event s = elim s.worker [ Worker.waiting ↦ take_from s.queue s | _ ↦ s ]

-- The loop over `get_nowait`: the batch and the rest of the queue.
unfoldable pub drain : ℕ → List String → List String → List String × List String
drain batch_size batch [] = (batch, [])
drain batch_size batch (event ∷ queue) =
    let rest = drain batch_size (batch ++ event ∷ []) queue in
    if ltb (length batch) batch_size then rest else (batch, event ∷ queue)

module _ {T : Type 0} where
  -- From the end of the sleep to the call of Redis.
  unfoldable pub wake : ℕ → State T → State T
  unfolding drain
  wake batch_size s = elim s.worker [
    | Worker.sleeping batch ↦
        let (full, rest) = drain batch_size batch s.queue in
        record s { queue = rest; worker = Worker.sending full }
    | _ ↦ s
  ]

module _ {T : Type 0} (transport : Transport T) where
  unfoldable pub publish_all : List String → T → T
  publish_all [] t = t
  publish_all (event ∷ batch) t = publish_all batch (transport.publish event t)

  -- `_flush`, at its end.
  unfoldable pub flush : List String → T → T
  unfolding publish_all
  flush batch t =
      let (sent, t') = transport.xadd_batch batch t in
      if is_nil batch
      then t
      else if sent
      then t'
      else if transport.has_publisher t'
      then publish_all batch t'
      else t'

  -- From the answer of Redis to the next wait; `while self.running` goes on.
  unfoldable pub finish : State T → State T
  unfolding flush
  finish s = elim s.worker [
    | Worker.sending batch ↦ record s {
      worker = if s.running then Worker.waiting else Worker.absent;
      sink = flush batch s.sink;
    }
    | _ ↦ s
  ]

  -- So many turns of the worker's loop, where nothing is added meanwhile.
  unfoldable pub turns : ℕ → ℕ → State T → State T
  unfolding take_event wake finish
  turns batch_size zero s = s
  turns batch_size (suc n) s = turns batch_size n (finish (wake batch_size (take_event s)))

  -- `_flush_remaining` with a batch begun, where nothing is added meanwhile.
  unfoldable pub flush_remaining : ℕ → List String → List String → T → T
  unfolding flush
  flush_remaining batch_size batch [] t = flush batch t
  flush_remaining batch_size batch (event ∷ queue) t =
      let full = leb batch_size (length (batch ++ event ∷ [])) in
      flush_remaining batch_size (if full then [] else batch ++ event ∷ []) queue
        (if full then flush (batch ++ event ∷ []) t else t)

  -- What the cancellation of the worker leaves: its local variable is gone.
  abbrev pub cancel : Worker → T → T
  cancel (Worker.sending batch) t = transport.cancelled_batch batch t
  cancel _ t = t

  unfoldable pub stop : ℕ → State T → State T
  unfolding flush_remaining
  stop batch_size s =
      if s.running
      then record s {
        queue = [];
        running = false;
        worker = Worker.absent;
        sink = flush_remaining batch_size [] s.queue (cancel s.worker s.sink);
      }
      else s
