-- ===== src/Metrics/Consumer/Conservation.antt =====
-- No event of the consumer is unaccounted for: each one is processed, an error, overwritten, or still
-- in the buffer; and what the counter of dropped events counts.
use mathlib.Core.Option.{some-injective}
use mathlib.Core.Path.{subst}
use system_agent.Prelude.{
  ℕ, zero, suc, ◌+◌, ◌%◌, ◌^◌, ◌<◌, ◌≡◌, refl, List, [], ◌∷◌, some, ltb, leb, if◌then◌else◌, ◌==◌,
  length, arith, Bool-cases, inl, inr, Bool,
}
use system_agent.Prelude.Int.{pos}
use system_agent.RingBuffer
use system_agent.RingBuffer.{RingBuffer}
use system_agent.RingBuffer.Valid.{IsValid, push-IsValid, length-get_all}
use system_agent.RingBuffer.Window.{clear-IsValid, new-IsValid}
use system_agent.Metrics.Buffer
use system_agent.Metrics.Buffer.{MetricsBuffer}
use system_agent.Metrics.Consumer.{
  Consumer, new, handle_event, observe, push_event, on_notify, on_tick,
}
use system_agent.Metrics.Consumer.Batches.{process_batch-Processed, on_notify-eq-on_tick}

module _ {A : Type 0} where
  -- The events that were processed or were errors, and those in the buffer.
  abbrev pub kept : Consumer A → ℕ
  kept c = c.events_processed + c.errors_count + Buffer.len c.buffer

  -- One where the buffer is full.
  abbrev pub full : Consumer A → ℕ
  full c = if leb (Buffer.cap c.buffer) (Buffer.len c.buffer) then 1 else 0

  -- The ring is well formed and the batch size positive, as `Validate` of the configuration asks.
  pub record IsRunning (c : Consumer A) : Type 0 where
    pub ring : IsValid c.buffer.rb
    pub batch_size : 0 < c.export_batch_size

  -- What a step does: `m` more events come in, `lost` are overwritten, and `dropped` are counted as
  -- dropped.
  record Accounts (c c' : Consumer A) (m lost dropped : ℕ) : Type 0 where
    running : IsRunning c'
    balance : (kept c' + lost) % 2 ^ 64 ≡ (kept c + m) % 2 ^ 64
    counted : c'.events_dropped % 2 ^ 64 ≡ (c.events_dropped + dropped) % 2 ^ 64

  rb-push : (b : MetricsBuffer A) (e : A) → (Buffer.push b e).rb ≡ RingBuffer.push b.rb e
  unfolding Buffer.push
  rb-push b e =
      elim (Bool-cases
        (Buffer.reaches (RingBuffer.len (RingBuffer.push b.rb e)) b.notify_threshold)) [
          | inl yes_ ↦ rw yes_
          | inr no_ ↦ rw no_
        ]

  observe-Accounts : (c : Consumer A) → IsRunning c → Accounts c (observe c) 0 0 (full c)
  unfolding observe
  observe-Accounts c r = record {
    running = record { ring = r.ring; batch_size = r.batch_size };
    balance = refl;
    counted = ground arith;
  }

  push_event-Accounts :
      (c : Consumer A) (e : A) → IsRunning c → Accounts c (push_event c e) 1 (full c) 0
  unfolding push_event Buffer.len Buffer.cap RingBuffer.push RingBuffer.len RingBuffer.cap
  push_event-Accounts c e r = record {
    running = record {
      ring = rw rb-push (push-IsValid c.buffer.rb e r.ring);
      batch_size = r.batch_size;
    };
    balance = rw rb-push (ground (arith, r.ring.size_in));
    counted = omega arith;
  }

  -- A call that no step comes between counts as dropped what it overwrites: the event that comes in is
  -- one more that is kept or dropped.
  pub handle_event-conserves :
      (c : Consumer A) (e : A)
      → IsRunning c
      → (kept (handle_event c e) + (handle_event c e).events_dropped) % 2 ^ 64
        ≡ (kept c + c.events_dropped + 1) % 2 ^ 64
  unfolding handle_event observe
  handle_event-conserves c e r =
      let a = observe-Accounts c r in
      let b = push_event-Accounts (observe c) e a.running in
      omega (arith, a.counted, b.balance, b.counted)

  -- A drain hands over what the buffer held, and leaves it empty and well formed.
  drain_lem :
      (z : A) (b : MetricsBuffer A)
      → IsValid b.rb
      → let (events, b') = Buffer.drain z b in
        (length events ≡ Buffer.len b) × (Buffer.len b' ≡ 0) × IsValid b'.rb
  unfolding Buffer.drain Buffer.len RingBuffer.len RingBuffer.clear
  drain_lem z b v = elim (Bool-cases (b.rb.size == 0)) [
    | inl e ↦ rw e (ground arith, ground arith, v)
    | inr e ↦ rw e (length-get_all z b.rb v, refl, (clear-IsValid z b.rb v).0)
  ]

  on_tick-Accounts :
      (process : A → Bool) (z : A) (c : Consumer A)
      → IsRunning c
      → Accounts c (on_tick process z c) 0 0 0
  unfolding on_tick
  on_tick-Accounts process z c r =
      let (events, buffer) = Buffer.drain z c.buffer in
      let (n, empty, v) = drain_lem z c.buffer r.ring in
      let c' = record c { buffer = buffer } in
      let p = process_batch-Processed process c' events in
      elim (Bool-cases (ltb 0 (length events))) [
        | inl some_ ↦ rw some_ (record {
          running = record {
            ring = rw (p.buffer_kept) v;
            batch_size = rw p.size_kept r.batch_size;
          };
          balance = rw (p.buffer_kept) (omega (arith, p.counted, n, empty));
          counted = rw (p.dropped_kept) (omega arith);
        })
        | inr none_ ↦ rw none_ (record {
          running = record { ring = v; batch_size = r.batch_size };
          balance = ground (arith, n, empty);
          counted = omega arith;
        })
      ]

  on_notify-Accounts :
      (process : A → Bool) (z : A) (c : Consumer A)
      → IsRunning c
      → Accounts c (on_notify process z c) 0 0 0
  unfolding Buffer.receive Buffer.len
  on_notify-Accounts process z c r =
      let c' = record c { buffer = Buffer.receive c.buffer } in
      let a = on_tick-Accounts process z c' (record { ring = r.ring; batch_size = r.batch_size }) in
      rw (on_notify-eq-on_tick process z c r.batch_size)
        (record { running = a.running; balance = a.balance; counted = a.counted })

-- What can happen to a consumer: the two halves of a call of `HandleEvent`, and the two cases of its
-- own loop. Calls may run beside each other and beside the loop, so the steps come in any order.
pub data Op (A : Type 0) : Type 0 where
  observed notified ticked : Op A
  pushed : A → Op A

-- The number of events that were handed to the consumer.
abbrev pub pushes : {A : Type 0} → List (Op A) → ℕ
pushes [] = 0
pushes (pushed e ∷ ops) = suc (pushes ops)
pushes (_ ∷ ops) = pushes ops

module _ {A : Type 0} (process : A → Bool) (z : A) where
  unfoldable pub step : Consumer A → Op A → Consumer A
  step c observed = observe c
  step c (pushed e) = push_event c e
  step c notified = on_notify process z c
  step c ticked = on_tick process z c

  unfoldable pub run : Consumer A → List (Op A) → Consumer A
  run c [] = c
  run c (op ∷ ops) = run (step c op) ops

  -- How many pushes find the buffer full, and so overwrite an event.
  abbrev pub overwritten : Consumer A → List (Op A) → ℕ
  overwritten c [] = 0
  overwritten c (pushed e ∷ ops) = full c + overwritten (step c (pushed e)) ops
  overwritten c (op ∷ ops) = overwritten (step c op) ops

  -- How many first halves find the buffer full.
  abbrev pub found_full : Consumer A → List (Op A) → ℕ
  found_full c [] = 0
  found_full c (observed ∷ ops) = full c + found_full (step c observed) ops
  found_full c (op ∷ ops) = found_full (step c op) ops

  -- From a running consumer, in whatever order the halves of the calls of `HandleEvent`, the
  -- notifications and the ticks come: the events that were processed, were errors or are in the buffer
  -- have grown by exactly the events handed over, less those that a push overwrote; the counter of
  -- dropped events has grown by the calls whose first half found the buffer full, whether or not their
  -- push then overwrote one, both modulo 2^64 as the counters are; and the consumer is still running.
  pub run-conserves :
      (ops : List (Op A)) (c : Consumer A)
      → IsRunning c
      → ((kept (run c ops) + overwritten c ops) % 2 ^ 64 ≡ (kept c + pushes ops) % 2 ^ 64)
        × ((run c ops).events_dropped % 2 ^ 64 ≡ (c.events_dropped + found_full c ops) % 2 ^ 64)
        × IsRunning (run c ops)
  unfolding run step
  run-conserves [] c r = (omega arith, omega arith, r)
  run-conserves (observed ∷ ops) c r =
      let a = observe-Accounts c r in
      let (b, d, r') = run-conserves ops (observe c) a.running in
      (omega (arith, a.balance, b), omega (arith, a.counted, d), r')
  run-conserves (pushed e ∷ ops) c r =
      let a = push_event-Accounts c e r in
      let (b, d, r') = run-conserves ops (push_event c e) a.running in
      (omega (arith, a.balance, b), omega (arith, a.counted, d), r')
  run-conserves (notified ∷ ops) c r =
      let a = on_notify-Accounts process z c r in
      let (b, d, r') = run-conserves ops (on_notify process z c) a.running in
      (omega (arith, a.balance, b), omega (arith, a.counted, d), r')
  run-conserves (ticked ∷ ops) c r =
      let a = on_tick-Accounts process z c r in
      let (b, d, r') = run-conserves ops (on_tick process z c) a.running in
      (omega (arith, a.balance, b), omega (arith, a.counted, d), r')

-- A consumer that `NewConsumer` makes is running, if the batch size is positive.
pub new-IsRunning :
    {A : Type 0} (z : A) (queue batch : ℕ) (c : Consumer A)
    → 0 < batch
    → new z queue batch ≡ some c
    → IsRunning c × (kept c ≡ 0)
unfolding new Buffer.new RingBuffer.new Buffer.len RingBuffer.len
new-IsRunning z zero batch c h e = cc
new-IsRunning z (suc n) batch c h e =
    subst (λ d. IsRunning d × (kept d ≡ 0)) (some-injective _ _ e)
      (record { ring = (new-IsValid z (pos (suc n)) _ refl).0; batch_size = h }, refl)
