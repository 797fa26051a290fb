-- ===== src/Intake/Drain.antt =====
-- The worker's queue runs empty: a delivery takes one batch off it, and a failed send none, and the
-- worker says of each batch that it is done.
use system_agent.Prelude.{
  ℕ, ◌+◌, ◌≤◌, ◌≡◌, refl, ap, ◌∙◌, false, List, [], ◌∷◌, arith, Option-cases, inl, inr,
}
use system_agent.Prelude.Text.{Str}
use system_agent.Intake.{
  DeltasBatch, Queue, Worker, Outcome, cancelled, failed, delivered, Action, sending, send_batch,
  send_delta, act, run,
}
use system_agent.Intake.Conservation.{IsQueue, total, NoneCancelled, act-open}

-- A run of the streamer alone.
abbrev pub sends : List Outcome → List Action
sends [] = []
sends (o ∷ os) = sending o ∷ sends os

abbrev pub delivery : Outcome → ℕ
delivery delivered = 1
delivery _ = 0

abbrev pub deliveries : List Outcome → ℕ
deliveries [] = 0
deliveries (o ∷ os) = delivery o + deliveries os

abbrev one : DeltasBatch → ℕ
one b = 1

total-one : (bs : List DeltasBatch) → total one bs ≤ 0 → bs ≡ []
unfolding total
total-one [] h = refl
total-one (b ∷ bs) h = absurd (omega (arith, h))

module _ {Q : Type 0} (queue : Queue Q) (version : Str) (waiting busy : Q → List DeltasBatch)
    (laws : IsQueue queue waiting busy) where
  -- How many batches wait.
  abbrev pub pending : Worker Q → ℕ
  pending w = total one (waiting w.queue)

  -- No more than `n` batches wait, and none is busy.
  record IsIdle (n : ℕ) (w : Worker Q) : Type 0 where
    few : pending w ≤ n
    idle : busy w.queue ≡ []

  send_batch-pending :
      (o : Outcome) (b : DeltasBatch) (w : Worker Q)
      → queue.shutting_down w.queue ≡ false
      → pending (send_batch queue version o b w) + delivery o ≤ pending w + 1
  unfolding send_batch
  send_batch-pending cancelled b w open_ = rw (laws.waiting-done b w.queue) (omega arith)
  send_batch-pending failed b w open_ =
      rw (open_, laws.waiting-done b (queue.add_rate_limited b w.queue))
        (omega (arith, laws.waiting-add one b w.queue open_))
  send_batch-pending delivered b w open_ =
      rw (laws.waiting-done b (queue.forget b w.queue), laws.waiting-forget b w.queue) (omega arith)

  -- However a send ends, the only busy batch is done behind it.
  send_batch-busy :
      (o : Outcome) (b : DeltasBatch) (w : Worker Q)
      → queue.shutting_down w.queue ≡ false
      → busy w.queue ≡ b ∷ []
      → busy (send_batch queue version o b w).queue ≡ []
  unfolding send_batch
  send_batch-busy cancelled b w open_ e = laws.busy-done b w.queue e
  send_batch-busy failed b w open_ e = rw open_ (laws.busy-done b _ (laws.busy-add b w.queue ∙ e))
  send_batch-busy delivered b w open_ e = laws.busy-done b _ (laws.busy-forget b w.queue ∙ e)

  send_delta-IsIdle :
      (o : Outcome) (w : Worker Q) (n : ℕ)
      → queue.shutting_down w.queue ≡ false
      → IsIdle (delivery o + n) w
      → IsIdle n (send_delta queue version o w)
  unfolding send_delta total
  send_delta-IsIdle o w n open_ h = elim (Option-cases (queue.get w.queue)) [
    | inl e ↦
        rw (e, send_delta)
          (record { few = rw (laws.get-none w.queue h.idle e) (omega arith); idle = h.idle })
    | inr ((b, q), e) ↦
        let w' = record w { queue = q } in
        let open' = laws.open-get b w.queue q e ∙ open_ in
        let p = send_batch-pending o b w' open' in
        rw (e, send_delta)
          (record {
            few = omega (arith, p, h.few, laws.waiting-get one b w.queue q e);
            idle =
                send_batch-busy o b w' open'
                  (laws.busy-get b w.queue q e ∙ ap (λ bs. b ∷ bs) h.idle);
          })
  ]

  -- While the queue is open and no context is cancelled, from a queue with no busy batch, the streamer
  -- alone empties the queue, whatever sends fail between, once as many batches are delivered as wait:
  -- no batch waits then, and each one that it was given is done.
  pub sends-drain :
      (os : List Outcome) (w : Worker Q)
      → NoneCancelled (sends os)
      → queue.shutting_down w.queue ≡ false
      → busy w.queue ≡ []
      → pending w ≤ deliveries os
      → (waiting (run queue version (sends os) w).queue ≡ [])
        × (busy (run queue version (sends os) w).queue ≡ [])
  unfolding run act
  sends-drain [] w n open_ idle h = (total-one (waiting w.queue) h, idle)
  sends-drain (o ∷ os) w n open_ idle h =
      let (open', n') =
        act-open queue version waiting busy laws (λ d. 0) (sending o) (sends os) w n open_ in
      let after = send_delta-IsIdle o w (deliveries os) open_ (record { few = h; idle = idle }) in
      sends-drain os (send_delta queue version o w) n' open' after.idle after.few
