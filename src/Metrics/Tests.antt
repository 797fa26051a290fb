-- ===== src/Metrics/Tests.antt =====
-- Runs of the router and of the OpenTelemetry consumer, and their theorems at concrete states.
use mathlib.Core.List.{flatten}
use system_agent.Prelude.{
  ℕ, zero, suc, ◌+◌, ◌%◌, ◌^◌, Bool, true, false, List, [], ◌∷◌, Option, none, some, ◌==◌, ◌≡◌,
  refl, arith,
}
use system_agent.Prelude.Int.{pos}
use system_agent.Prelude.Text.{codes}
use system_agent.Prelude.Assoc.{lookup}
use system_agent.RingBuffer
use system_agent.Metrics.Buffer
use system_agent.Metrics.Router.{MetricsRouter, closed, publish, publish_batch}
use system_agent.Metrics.Router.Delivery.{after, publish-delivers, publish_batch-closed}
use system_agent.Metrics.Consumer.{
  Consumer, new, observe, push_event, process_batch, process_batches, batches, on_notify, on_tick,
}
use system_agent.Metrics.Consumer.Batches.{flatten-batches}
use system_agent.Metrics.Consumer.Conservation.{
  IsRunning, kept, Op, observed, pushed, notified, ticked, run, step, pushes, overwritten,
  found_full, run-conserves, new-IsRunning,
}

-- A consumer that keeps its events and refuses a 0.
abbrev keep : ℕ → List ℕ → Option ℕ × List ℕ
keep zero seen = (some 1, seen)
keep (suc n) seen = (none, suc n ∷ seen)

abbrev router : MetricsRouter (List ℕ)
router = record { consumers = (codes "otel", []) ∷ (codes "debug", 9 ∷ []) ∷ []; closed = false }

publish-delivers_example :
    (lookup (codes "debug") (publish keep 3 router).1.consumers
      ≡ after keep 3 (lookup (codes "debug") router.consumers))
    × ((publish keep 3 router).1.closed ≡ false)
publish-delivers_example = publish-delivers keep 3 (codes "debug") router refl

publish_batch-closed_example :
    publish_batch keep (3 ∷ 4 ∷ []) (record router { closed = true })
    ≡ (some closed, record router { closed = true })
publish_batch-closed_example =
    publish_batch-closed keep 3 (4 ∷ []) (record router { closed = true }) refl

-- Two events in a buffer of three, batches of one.
abbrev consumer : Consumer ℕ
consumer = record {
  buffer = record {
    rb = record { items = 5 ∷ 6 ∷ 0 ∷ []; head = 2; size = 2 };
    notify_threshold = pos 1;
    notify = true;
  };
  export_batch_size = 1;
  events_processed = 0;
  events_dropped = 0;
  errors_count = 0;
  buffer_high_water = 1;
  buffer_overflows = 0;
}

consumer-IsRunning : IsRunning consumer
consumer-IsRunning = record {
  ring = record {
    room = omega arith;
    head_in = omega arith;
    size_in = omega arith;
    filling = λ _. refl;
  };
  batch_size = omega arith;
}

-- An event is processed where it is even.
abbrev even_only : ℕ → Bool
even_only n = n % 2 == 0

abbrev ops : List (Op ℕ)
ops = observed ∷ pushed 7 ∷ observed ∷ pushed 8 ∷ notified ∷ ticked ∷ []

run-conserves_example :
    ((kept (run even_only 0 consumer ops) + overwritten even_only 0 consumer ops) % 2 ^ 64
      ≡ (kept consumer + pushes ops) % 2 ^ 64)
    × ((run even_only 0 consumer ops).events_dropped % 2 ^ 64
        ≡ (consumer.events_dropped + found_full even_only 0 consumer ops) % 2 ^ 64)
    × IsRunning (run even_only 0 consumer ops)
run-conserves_example = run-conserves even_only 0 ops consumer consumer-IsRunning

-- The event that the full buffer overwrites is counted as dropped, where no step comes between the
-- halves of its call.
run_counts :
    let c = run even_only 0 consumer ops in
    (c.events_processed ≡ 2) × (c.errors_count ≡ 1) × (c.events_dropped ≡ 1)
unfolding run step observe push_event on_notify on_tick batches process_batches process_batch
    Buffer.len Buffer.cap Buffer.push Buffer.drain Buffer.receive RingBuffer.push RingBuffer.len
    RingBuffer.cap RingBuffer.get_all RingBuffer.clear
run_counts = (refl, refl, refl)

-- Two calls whose first halves both come before their pushes: one event is lost and none is counted.
abbrev side_by_side : List (Op ℕ)
side_by_side = observed ∷ observed ∷ pushed 7 ∷ pushed 8 ∷ []

side_by_side_counts :
    ((run even_only 0 consumer side_by_side).events_dropped ≡ 0)
    × (overwritten even_only 0 consumer side_by_side ≡ 1)
unfolding run step observe push_event Buffer.len Buffer.cap Buffer.push RingBuffer.push
    RingBuffer.len RingBuffer.cap
side_by_side_counts = (refl, refl)

-- A drain between the halves of a call on a full buffer: none is lost and one is counted.
abbrev drained_between : List (Op ℕ)
drained_between = pushed 6 ∷ observed ∷ ticked ∷ pushed 8 ∷ []

drained_between_counts :
    ((run even_only 0 consumer drained_between).events_dropped ≡ 1)
    × (overwritten even_only 0 consumer drained_between ≡ 0)
unfolding run step observe push_event on_tick process_batch Buffer.len Buffer.cap Buffer.push
    Buffer.drain RingBuffer.push RingBuffer.len RingBuffer.cap RingBuffer.get_all RingBuffer.clear
drained_between_counts = (refl, refl)

abbrev fresh : Consumer ℕ
fresh = record {
  buffer = record {
    rb = record { items = 0 ∷ 0 ∷ []; head = 0; size = 0 };
    notify_threshold = pos 1;
    notify = false;
  };
  export_batch_size = 1;
  events_processed = 0;
  events_dropped = 0;
  errors_count = 0;
  buffer_high_water = 0;
  buffer_overflows = 0;
}

new-IsRunning_example : IsRunning fresh × (kept fresh ≡ 0)
new-IsRunning_example =
    new-IsRunning 0 2 1 fresh (omega arith) (unfold new Buffer.new RingBuffer.new in refl)

abbrev events : List ℕ
events = 5 ∷ 6 ∷ 7 ∷ []

flatten-batches_example : flatten (batches 3 2 events) ≡ events
flatten-batches_example = flatten-batches 3 2 events (omega arith) (omega arith)
