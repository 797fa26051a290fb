-- ===== src/Metrics/Consumer/Batches.antt =====
-- What the loops over events and batches change.
use mathlib.Core.List.{flatten}
use system_agent.Prelude.{
  ℕ, zero, suc, ◌+◌, ◌%◌, ◌^◌, ◌≤◌, ◌<◌, ◌≡◌, refl, sym, ap, ◌∙◌, List, [], ◌∷◌, ◌++◌, length, drop,
  arith, take-append-drop, length-drop, Bool-cases, inl, inr, Bool,
}
use system_agent.Metrics.Buffer
use system_agent.Metrics.Buffer.{MetricsBuffer}
use system_agent.Metrics.Consumer.{
  Consumer, batches, process_one, process_batch, process_batches, on_notify, on_tick,
}

module _ {A : Type 0} where
  process_batch-append :
      (process : A → Bool) (c : Consumer A) (xs ys : List A)
      → process_batch process c (xs ++ ys) ≡ process_batch process (process_batch process c xs) ys
  unfolding process_batch
  process_batch-append process c [] ys = refl
  process_batch-append process c (x ∷ xs) ys =
      process_batch-append process (process_one process c x) xs ys

  process_batches-flatten :
      (process : A → Bool) (c : Consumer A) (bs : List (List A))
      → process_batches process c bs ≡ process_batch process c (flatten bs)
  unfolding process_batches process_batch flatten
  process_batches-flatten process c [] = refl
  process_batches-flatten process c (b ∷ bs) =
      process_batches-flatten process (process_batch process c b) bs
      ∙ sym (process_batch-append process c b (flatten bs))

  -- The batches of a positive size are the events, cut into pieces, and the loop over them ends.
  pub flatten-batches :
      (fuel size : ℕ) (events : List A)
      → 0 < size
      → length events ≤ fuel
      → flatten (batches fuel size events) ≡ events
  unfolding batches flatten
  flatten-batches zero size [] p h = refl
  flatten-batches zero size (e ∷ es) p h = absurd (omega arith)
  flatten-batches (suc fuel) size [] p h = refl
  flatten-batches (suc fuel) (zero) (e ∷ es) p h = absurd (omega arith)
  flatten-batches (suc fuel) (suc size) (e ∷ es) p h =
      rw (flatten-batches fuel (suc size) (drop size es) p (omega (arith, length-drop size es)))
        (ap (λ l. e ∷ l) (take-append-drop size es))

  -- What a batch changes: the two counters of processed events and of errors, which grow together
  -- by the number of events.
  pub record Processed (c c' : Consumer A) (n : ℕ) : Type 0 where
    pub counted :
        (c'.events_processed + c'.errors_count) % 2 ^ 64
        ≡ (c.events_processed + c.errors_count + n) % 2 ^ 64
    pub buffer_kept : c'.buffer ≡ c.buffer
    pub dropped_kept : c'.events_dropped ≡ c.events_dropped
    pub size_kept : c'.export_batch_size ≡ c.export_batch_size

  Processed-trans :
      {a b c : Consumer A} (n m : ℕ) → Processed a b n → Processed b c m → Processed a c (n + m)
  Processed-trans n m p q = record {
    counted = omega (arith, p.counted, q.counted);
    buffer_kept = q.buffer_kept ∙ p.buffer_kept;
    dropped_kept = q.dropped_kept ∙ p.dropped_kept;
    size_kept = q.size_kept ∙ p.size_kept;
  }

  process_one-Processed :
      (process : A → Bool) (c : Consumer A) (e : A) → Processed c (process_one process c e) 1
  unfolding process_one
  process_one-Processed process c e = elim (Bool-cases (process e)) [
    | inl ok ↦ rw ok (record {
      counted = omega arith;
      buffer_kept = refl;
      dropped_kept = refl;
      size_kept = refl;
    })
    | inr bad ↦ rw bad (record {
      counted = omega arith;
      buffer_kept = refl;
      dropped_kept = refl;
      size_kept = refl;
    })
  ]

  pub process_batch-Processed :
      (process : A → Bool) (c : Consumer A) (es : List A)
      → Processed c (process_batch process c es) (length es)
  unfolding process_batch
  process_batch-Processed process c [] = record {
    counted = omega arith;
    buffer_kept = refl;
    dropped_kept = refl;
    size_kept = refl;
  }
  process_batch-Processed process c (e ∷ es) =
      let all =
        Processed-trans 1 (length es) (process_one-Processed process c e)
          (process_batch-Processed process (process_one process c e) es) in
      let n : 1 + length es ≡ suc (length es) = omega arith in rw n at all

  -- The loop over the batches has the effect of one batch of all the events: a notification does
  -- what a tick does on the buffer whose notification was received.
  pub on_notify-eq-on_tick :
      (process : A → Bool) (z : A) (c : Consumer A)
      → 0 < c.export_batch_size
      → on_notify process z c ≡ on_tick process z (record c { buffer = Buffer.receive c.buffer })
  unfolding on_notify on_tick
  on_notify-eq-on_tick process z c h =
      let (events, buffer) = Buffer.drain z (Buffer.receive c.buffer) in
      let c' = record c { buffer = buffer } in
      rw (
        process_batches-flatten process c' (batches (length events) c.export_batch_size events),
        flatten-batches (length events) c.export_batch_size events h (omega arith),
      )
