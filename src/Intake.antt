-- ===== src/Intake.antt =====
-- internal/intake/worker.go: the worker that sends what the store's subscription brings to the intake
-- service, in batches. Four goroutines share the batch under a mutex and the queue; a step is what
-- one of them does under the mutex, or between taking a batch off the queue and being done with it.
-- The rate limiting queue is the interface `Queue`; connecting and sending are the environment, which
-- gives a step its outcome.
pub mod Conservation
pub mod Drain
pub mod Bounds
mod Tests
use system_agent.Prelude.{
  ℕ, zero, suc, ◌+◌, ◌%◌, ◌^◌, Bool, true, false, List, [], ◌∷◌, ◌++◌, Option, none, some, ◌==◌,
  leb, if◌then◌else◌, length, ◌≡◌,
}
use system_agent.Prelude.Int.{ℤ, pos}
use system_agent.Prelude.Text.{Str}
use system_agent.Store.Types.{Object, Event, EventType, add, update, delete}

pub data DeltaOperation : Type 0 where
  op_create op_update op_delete op_heartbeat : DeltaOperation

-- An object with the fields that the worker sets; a heartbeat has nothing else.
pub record DeltaObject : Type 0 where
  pub object : Option Object
  pub ttl : ℤ
  pub delta_version : Str

pub record Delta : Type 0 where
  pub op : DeltaOperation
  pub objects : List DeltaObject

pub record DeltasBatch : Type 0 where
  pub deltas : List Delta
  pub id : ℕ

-- The queue of client-go. `get` is the batch that `Get` returns once the delay that `AddRateLimited`
-- gave it is over, and `none` where only an addition or a `Done` can end its wait. A batch that it
-- returned is being processed until `done_`, which stands for `Done`; `Forget` has no effect on what is queued.
pub record Queue (Q : Type 0) : Type 0 where
  pub add_rate_limited : DeltasBatch → Q → Q
  pub get : Q → Option (DeltasBatch × Q)
  pub done_ : DeltasBatch → Q → Q
  pub forget : DeltasBatch → Q → Q
  pub shutting_down : Q → Bool

abbrev pub event_type_to_op : EventType → DeltaOperation
event_type_to_op add = op_create
event_type_to_op update = op_update
event_type_to_op delete = op_delete

-- Five minutes, in nanoseconds.
abbrev pub default_delta_ttl : ℤ
default_delta_ttl = pos 300000000000

pub record Worker (Q : Type 0) : Type 0 where
  pub queue : Q
  pub batch : DeltasBatch
  pub batch_counter : ℕ
  pub max_batch_size : ℕ
  -- whether `stream` is not nil
  pub has_stream : Bool
  -- the requests that were sent, in order
  pub sent : List (List Delta)

-- How one round of `sendDelta` ends behind the call of `Get`: no stream before the context was
-- cancelled, a failed send, or a send.
pub data Outcome : Type 0 where
  cancelled failed delivered : Outcome

abbrev pub version_objects : Str → List Object → List DeltaObject
version_objects version [] = []
version_objects version (obj ∷ objs) =
    record { object = some obj; ttl = default_delta_ttl; delta_version = version }
    ∷ version_objects version objs

-- The delta of an event, where `version` is the random version of the process.
unfoldable pub delta_of : Str → Event → Delta
delta_of version event = record {
  op = event_type_to_op event.type;
  objects = version_objects version event.objs;
}

unfoldable pub heartbeat : Str → Delta
heartbeat version = record {
  op = op_heartbeat;
  objects = record { object = none; ttl = default_delta_ttl; delta_version = version } ∷ [];
}

module _ {Q : Type 0} (queue : Queue Q) (version : Str) where
  open queue use {add_rate_limited, get, done_, forget, shutting_down}

  -- `newDeltasBatch`: the batch and the counter, which wraps at 64 bits.
  unfoldable pub new_deltas_batch : List Delta → ℕ → DeltasBatch × ℕ
  new_deltas_batch deltas counter =
      let id = (counter + 1) % 2 ^ 64 in (record { deltas = deltas; id = id }, id)

  unfoldable pub flush_batch : Worker Q → Worker Q
  flush_batch w =
      let (batch, counter) = new_deltas_batch [] w.batch_counter in
      if length w.batch.deltas == 0 then w else record w {
        queue = add_rate_limited w.batch w.queue;
        batch = batch;
        batch_counter = counter;
      }

  -- What the loop of `Start` does under the mutex with an event.
  unfoldable pub append_delta : Event → Worker Q → Worker Q
  append_delta event w = record w {
    batch = record w.batch { deltas = w.batch.deltas ++ (delta_of version event ∷ []) };
  }

  -- One round of the loop of `Start`.
  unfoldable pub receive : Event → Worker Q → Worker Q
  receive event w =
      let w' = append_delta event w in
      if leb w'.max_batch_size (length w'.batch.deltas) then flush_batch w' else w'

  -- One tick of `heartbeatWorker`.
  unfoldable pub beat : Worker Q → Worker Q
  beat w =
      let (batch, counter) = new_deltas_batch (heartbeat version ∷ []) w.batch_counter in
      record w { queue = add_rate_limited batch w.queue; batch_counter = counter }

  -- `sendDelta` behind `Get`, with the batch; `queue` of the worker is what `Get` left.
  unfoldable pub send_batch : Outcome → DeltasBatch → Worker Q → Worker Q
  send_batch cancelled batch w = record w { queue = done_ batch w.queue }
  send_batch failed batch w =
      let again = if shutting_down w.queue then w.queue else add_rate_limited batch w.queue in
      record w { has_stream = false; queue = done_ batch again }
  send_batch delivered batch w = record w {
    has_stream = true;
    sent = w.sent ++ (batch.deltas ∷ []);
    queue = done_ batch (forget batch w.queue);
  }

  -- One call of `sendDelta`, which waits where there is no batch. With a stream, or a context that is
  -- not cancelled, the outcome is not `cancelled`.
  unfoldable pub send_delta : Outcome → Worker Q → Worker Q
  send_delta outcome w = elim (get w.queue) [
    | none ↦ w
    | some (batch, q) ↦ send_batch outcome batch (record w { queue = q })
  ]

-- What the goroutines do, in the order of a schedule: `received` is a round of the loop of `Start`,
-- `appended` only its first half, and `flushed` its second half or a tick of `batchFlusher`.
pub data Action : Type 0 where
  received appended : Event → Action
  flushed beaten : Action
  sending : Outcome → Action

module _ {Q : Type 0} (queue : Queue Q) (version : Str) where
  unfoldable pub act : Action → Worker Q → Worker Q
  act (received e) w = receive queue version e w
  act (appended e) w = append_delta queue version e w
  act flushed w = flush_batch queue version w
  act beaten w = beat queue version w
  act (sending outcome) w = send_delta queue version outcome w

  unfoldable pub run : List Action → Worker Q → Worker Q
  run [] w = w
  run (a ∷ as_) w = run as_ (act a w)
