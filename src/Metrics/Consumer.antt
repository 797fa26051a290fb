-- ===== src/Metrics/Consumer.antt =====
-- internal/metrics/consumers/otel/consumer.go: the buffer's fill and drain, and the counters.
-- Transforming an event is the parameter `process`: `true` where `processEvent` returns nil; the
-- counters are 64-bit words. A call of `HandleEvent` locks the buffer twice, and each half is a step
-- of its own. A case of the loop of `processEvents` locks it once, for the drain; what it does with
-- the events behind that touches only counters that no other step touches, and is one step with it.
pub mod Batches
pub mod Conservation
use system_agent.Prelude.{
  ℕ, zero, suc, ◌+◌, ◌%◌, ◌^◌, Bool, true, false, List, [], ◌∷◌, Option, none, some, leb, ltb,
  if◌then◌else◌, length, take, drop,
}
use system_agent.Prelude.Int.{ℤ, pos}
use system_agent.Metrics.Buffer
use system_agent.Metrics.Buffer.{MetricsBuffer}

pub record Consumer (A : Type 0) : Type 0 where
  pub buffer : MetricsBuffer A
  pub export_batch_size : ℕ
  pub events_processed : ℕ
  pub events_dropped : ℕ
  pub errors_count : ℕ
  pub buffer_high_water : ℕ
  pub buffer_overflows : ℕ

-- atomic.Uint64.Add(1)
abbrev pub incr : ℕ → ℕ
incr n = (n + 1) % 2 ^ 64

pub record ConsumerHealth : Type 0 where
  pub events_count : ℕ
  pub errors_count : ℕ

module _ {A : Type 0} where
  -- `NewConsumer`, for the two fields of its configuration that the buffer takes.
  unfoldable pub new : A → ℕ → ℕ → Option (Consumer A)
  new z max_queue_size export_batch_size =
      elim (Buffer.new z (pos max_queue_size) (pos export_batch_size)) [
        | none ↦ none
        | some buffer ↦ some (record {
          buffer = buffer;
          export_batch_size = export_batch_size;
          events_processed = 0;
          events_dropped = 0;
          errors_count = 0;
          buffer_high_water = 0;
          buffer_overflows = 0;
        })
      ]

  -- The first half of `HandleEvent`, up to the high-water mark.
  unfoldable pub observe : Consumer A → Consumer A
  observe c =
      let buffer_len = Buffer.len c.buffer in
      let full = leb (Buffer.cap c.buffer) buffer_len in
      record c {
        buffer_overflows = if full then incr c.buffer_overflows else c.buffer_overflows;
        events_dropped = if full then incr c.events_dropped else c.events_dropped;
        buffer_high_water =
            if ltb c.buffer_high_water buffer_len then buffer_len else c.buffer_high_water;
      }

  -- The second half.
  unfoldable pub push_event : Consumer A → A → Consumer A
  push_event c event = record c { buffer = Buffer.push c.buffer event }

  -- A call that no other step comes between.
  unfoldable pub handle_event : Consumer A → A → Consumer A
  handle_event c event = push_event (observe c) event

  unfoldable pub health : Consumer A → ConsumerHealth
  health c = record {
    events_count = c.events_processed;
    errors_count = (c.errors_count + c.events_dropped) % 2 ^ 64;
  }

  -- `events[i:end]` for each round of the loop over `i`, from what is left of the events. The
  -- fuel is the number of rounds that are left at most.
  unfoldable pub batches : ℕ → ℕ → List A → List (List A)
  batches zero size events = []
  batches (suc fuel) size [] = []
  batches (suc fuel) size (e ∷ events) =
      take size (e ∷ events) ∷ batches fuel size (drop size (e ∷ events))

  module _ (process : A → Bool) where
    -- The body of the loop of `processBatch`.
    unfoldable pub process_one : Consumer A → A → Consumer A
    process_one c event =
        if process event
        then record c { events_processed = incr c.events_processed }
        else record c { errors_count = incr c.errors_count }

    unfoldable pub process_batch : Consumer A → List A → Consumer A
    unfolding process_one
    process_batch c [] = c
    process_batch c (e ∷ events) = process_batch (process_one c e) events

    unfoldable pub process_batches : Consumer A → List (List A) → Consumer A
    process_batches c [] = c
    process_batches c (b ∷ bs) = process_batches (process_batch c b) bs

    module _ (z : A) where
      -- `case <-notify`
      unfoldable pub on_notify : Consumer A → Consumer A
      on_notify c =
          let (events, buffer) = Buffer.drain z (Buffer.receive c.buffer) in
          let c' = record c { buffer = buffer } in
          if ltb 0 (length events)
          then process_batches c' (batches (length events) c.export_batch_size events)
          else c'

      -- `case <-ticker.C`, and what `case <-ctx.Done()` does before it returns.
      unfoldable pub on_tick : Consumer A → Consumer A
      on_tick c =
          let (events, buffer) = Buffer.drain z c.buffer in
          let c' = record c { buffer = buffer } in
          if ltb 0 (length events) then process_batch c' events else c'
