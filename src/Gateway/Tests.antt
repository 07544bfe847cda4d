-- ===== src/Gateway/Tests.antt =====
-- The buffer with a stream that keeps what it is given, and a user of the gateway.
use wms_core.Base.{arith, str_eq, ◌≡◌, refl, true, String, List, [], ◌∷◌, ◌++◌}
use wms_core.Gateway.IngestBuffer.{
  turns, Transport, Worker, State, start, add_event, take_event, stop,
}
use wms_core.Gateway.IngestBuffer.Order.{IsReliable, held}
use wms_core.Documents.Types.{DocumentType}
use wms_core.Gateway.Permissions.{CurrentUser, require_permissions}
use wms_core.Gateway.Permissions.Duties.{creator_who_posts_is_admin}
use wms_core.Gateway.IngestBuffer.Progress.{worker_drains_queue}
use wms_core.Gateway.IngestBuffer.History.{Reached, buffer_keeps_order, stop_drops_held_batch}

abbrev stream : Transport (List String)
stream = record {
  xadd_batch = λ batch t. (true, t ++ batch);
  cancelled_batch = λ batch t. t;
  has_publisher = λ t. true;
  publish = λ event t. t;
}

stream-IsReliable : IsReliable stream (λ t. t)
stream-IsReliable = record { accepts = λ batch t. (refl, refl) }

-- Two events are in the buffer, and the worker sleeps with the first.
abbrev asleep : State (List String)
asleep = record {
  queue = "second" ∷ [];
  running = true;
  worker = Worker.sleeping ("first" ∷ []);
  sink = [];
}

abbrev one_queued : State (List String)
one_queued = record asleep { queue = "first" ∷ []; worker = Worker.waiting }

asleep_is_Reached : Reached stream 100 50000 [] ("first" ∷ "second" ∷ []) asleep
unfolding start add_event take_event
asleep_is_Reached =
    Reached.adds "second" asleep
      (Reached.takes (Reached.adds "first" one_queued (Reached.starts Reached.new_buffer) refl))
      refl

buffer_keeps_order_example :
    [] ++ (held asleep.worker ++ asleep.queue) ≡ [] ++ "first" ∷ "second" ∷ []
buffer_keeps_order_example = buffer_keeps_order stream-IsReliable 100 50000 [] asleep_is_Reached

stop_drops_held_batch_example :
    ((stop stream 100 asleep).sink ≡ [] ++ "second" ∷ [])
    × ([] ++ (held asleep.worker ++ asleep.queue) ≡ [] ++ "first" ∷ "second" ∷ [])
stop_drops_held_batch_example =
    stop_drops_held_batch stream-IsReliable 100 50000 [] asleep_is_Reached refl
      (λ batch h. absurd cc)

abbrev waiting : State (List String)
waiting = record asleep { queue = "first" ∷ "second" ∷ []; worker = Worker.waiting }

worker_drains_queue_example :
    ((turns stream 1 2 waiting).queue ≡ [])
    × ((turns stream 1 2 waiting).worker ≡ Worker.waiting)
    × ((turns stream 1 2 waiting).sink ≡ [] ++ "first" ∷ "second" ∷ [])
worker_drains_queue_example =
    worker_drains_queue stream-IsReliable 1 2 waiting refl refl (ground arith)

abbrev boss : CurrentUser
boss = record {
  user_id = 1;
  role = "admin";
  email = "boss@wms";
  full_name = "Boss";
  is_active = true;
}

creator_who_posts_is_admin_example : str_eq boss.role "admin" ≡ true
unfolding require_permissions
creator_who_posts_is_admin_example =
    creator_who_posts_is_admin DocumentType.sale boss (λ h. absurd cc) refl refl
