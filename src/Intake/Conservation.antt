-- ===== src/Intake/Conservation.antt =====
-- No delta is lost or made twice on its way from an event to a request.
use system_agent.Prelude.{
  ℕ, ◌+◌, ◌≡◌, ◌≢◌, refl, ◌∙◌, false, List, [], ◌∷◌, ◌++◌, none, some, arith, length, leb, ◌==◌,
  Bool-cases, Option-cases, inl, inr,
}
use system_agent.Prelude.Text.{Str}
use system_agent.Intake.{
  Delta, DeltasBatch, Queue, Worker, Outcome, cancelled, failed, delivered, Action, received,
  appended, flushed, beaten, sending, delta_of, heartbeat, new_deltas_batch, flush_batch,
  append_delta, receive, beat, send_batch, send_delta, act, run,
}

-- The sum of a weight over a list.
unfoldable pub total : {A : Type 0} → (A → ℕ) → List A → ℕ
total f [] = 0
total f (x ∷ xs) = f x + total f xs

pub total-append :
    {A : Type 0} (f : A → ℕ) (xs ys : List A) → total f (xs ++ ys) ≡ total f xs + total f ys
unfolding total
total-append f [] ys = omega arith
total-append f (x ∷ xs) ys = omega (arith, total-append f xs ys)

-- What the worker relies on of the queue, where `waiting` are the batches that were added, delayed or
-- not, and that `Get` has not returned since, and `busy` those that `Get` returned and that are not
-- done. Batches are told apart by their pointers, and the worker adds none that waits already.
-- Whatever is counted of the batches, an operation counts what it should. `Get` waits until the delay of
-- a batch is over, but holds back a batch that is added while it is busy, so that it surely finds one
-- that waits only where none is busy.
pub record IsQueue {Q : Type 0} (queue : Queue Q) (waiting busy : Q → List DeltasBatch)
    : Type 0 where
  pub waiting-add :
      (f : DeltasBatch → ℕ) (b : DeltasBatch) (q : Q)
      → queue.shutting_down q ≡ false
      → total f (waiting (queue.add_rate_limited b q)) ≡ f b + total f (waiting q)
  pub waiting-get :
      (f : DeltasBatch → ℕ) (b : DeltasBatch) (q q' : Q)
      → queue.get q ≡ some (b, q')
      → total f (waiting q) ≡ f b + total f (waiting q')
  pub waiting-done : (b : DeltasBatch) (q : Q) → waiting (queue.done_ b q) ≡ waiting q
  pub waiting-forget : (b : DeltasBatch) (q : Q) → waiting (queue.forget b q) ≡ waiting q
  pub busy-add : (b : DeltasBatch) (q : Q) → busy (queue.add_rate_limited b q) ≡ busy q
  pub busy-get : (b : DeltasBatch) (q q' : Q) → queue.get q ≡ some (b, q') → busy q' ≡ b ∷ busy q
  pub busy-done : (b : DeltasBatch) (q : Q) → busy q ≡ b ∷ [] → busy (queue.done_ b q) ≡ []
  pub busy-forget : (b : DeltasBatch) (q : Q) → busy (queue.forget b q) ≡ busy q
  pub get-none : (q : Q) → busy q ≡ [] → queue.get q ≡ none → waiting q ≡ []
  pub open-add :
      (b : DeltasBatch) (q : Q)
      → queue.shutting_down (queue.add_rate_limited b q) ≡ queue.shutting_down q
  pub open-get :
      (b : DeltasBatch) (q q' : Q)
      → queue.get q ≡ some (b, q')
      → queue.shutting_down q' ≡ queue.shutting_down q
  pub open-done :
      (b : DeltasBatch) (q : Q) → queue.shutting_down (queue.done_ b q) ≡ queue.shutting_down q
  pub open-forget :
      (b : DeltasBatch) (q : Q) → queue.shutting_down (queue.forget b q) ≡ queue.shutting_down q

-- No send ends because its context was cancelled.
abbrev pub NoneCancelled : List Action → Type 0
NoneCancelled [] = Unit
NoneCancelled (sending cancelled ∷ actions) = ⊥
NoneCancelled (_ ∷ actions) = NoneCancelled actions

module _ {Q : Type 0} (queue : Queue Q) (version : Str) (waiting busy : Q → List DeltasBatch)
    (laws : IsQueue queue waiting busy) (f : Delta → ℕ) where
  -- The weight of what an action makes.
  abbrev pub made_by : Action → ℕ
  made_by (received e) = f (delta_of version e)
  made_by (appended e) = f (delta_of version e)
  made_by flushed = 0
  made_by beaten = f (heartbeat version)
  made_by (sending outcome) = 0

  abbrev in_batch : DeltasBatch → ℕ
  in_batch b = total f b.deltas

  -- The weight of all deltas that the worker was given and sent, queued, or has in its batch.
  abbrev pub tally : Worker Q → ℕ
  tally w = total f w.batch.deltas + total in_batch (waiting w.queue) + total (total f) w.sent

  -- An open worker behind a step, with `n` more on its tally.
  record Tallied (n : ℕ) (w w' : Worker Q) : Type 0 where
    adds : tally w' ≡ tally w + n
    stays_open : queue.shutting_down w'.queue ≡ false

  flush_batch-Tallied :
      (w : Worker Q)
      → queue.shutting_down w.queue ≡ false
      → Tallied 0 w (flush_batch queue version w)
  unfolding flush_batch new_deltas_batch total
  flush_batch-Tallied w o = elim (Bool-cases (length w.batch.deltas == 0)) [
    | inl empty ↦ rw empty (record { adds = omega arith; stays_open = o })
    | inr some_ ↦ rw some_ (record {
      adds = omega (arith, laws.waiting-add in_batch w.batch w.queue o);
      stays_open = laws.open-add w.batch w.queue ∙ o;
    })
  ]

  append_delta-Tallied :
      (e : _) (w : Worker Q)
      → queue.shutting_down w.queue ≡ false
      → Tallied (f (delta_of version e)) w (append_delta queue version e w)
  unfolding append_delta total
  append_delta-Tallied e w o = record {
    adds = omega (arith, total-append f w.batch.deltas (delta_of version e ∷ []));
    stays_open = o;
  }

  Tallied-trans : (m n : ℕ) (a b c : Worker Q) → Tallied m a b → Tallied n b c → Tallied (m + n) a c
  Tallied-trans m n a b c p q = record {
    adds = omega (arith, p.adds, q.adds);
    stays_open = q.stays_open;
  }

  receive-Tallied :
      (e : _) (w : Worker Q)
      → queue.shutting_down w.queue ≡ false
      → Tallied (f (delta_of version e)) w (receive queue version e w)
  unfolding receive
  receive-Tallied e w o =
      let w' = append_delta queue version e w in
      let p = append_delta-Tallied e w o in
      elim (Bool-cases (leb w'.max_batch_size (length w'.batch.deltas))) [
        | inl full ↦
            let q = flush_batch-Tallied w' p.stays_open in
            rw full (record { adds = omega (arith, p.adds, q.adds); stays_open = q.stays_open })
        | inr room ↦ rw room p
      ]

  beat-Tallied :
      (w : Worker Q)
      → queue.shutting_down w.queue ≡ false
      → Tallied (f (heartbeat version)) w (beat queue version w)
  unfolding beat new_deltas_batch total
  beat-Tallied w o = record {
    adds = omega (arith, laws.waiting-add in_batch _ w.queue o);
    stays_open = laws.open-add _ w.queue ∙ o;
  }

  send_batch-Tallied :
      (outcome : Outcome) (b : DeltasBatch) (w : Worker Q)
      → outcome ≢ cancelled
      → queue.shutting_down w.queue ≡ false
      → Tallied (in_batch b) w (send_batch queue version outcome b w)
  unfolding send_batch total
  send_batch-Tallied cancelled b w n o = absurd (n refl)
  send_batch-Tallied failed b w n o = rw o (record {
    adds =
        rw (laws.waiting-done b (queue.add_rate_limited b w.queue))
          (omega (arith, laws.waiting-add in_batch b w.queue o));
    stays_open = laws.open-done b _ ∙ laws.open-add b w.queue ∙ o;
  })
  send_batch-Tallied delivered b w n o = record {
    adds =
        rw (laws.waiting-done b (queue.forget b w.queue), laws.waiting-forget b w.queue)
          (omega (arith, total-append (total f) w.sent (b.deltas ∷ [])));
    stays_open = laws.open-done b _ ∙ laws.open-forget b w.queue ∙ o;
  }

  send_delta-Tallied :
      (outcome : Outcome) (w : Worker Q)
      → outcome ≢ cancelled
      → queue.shutting_down w.queue ≡ false
      → Tallied 0 w (send_delta queue version outcome w)
  unfolding send_delta
  send_delta-Tallied outcome w n o = elim (Option-cases (queue.get w.queue)) [
    | inl e ↦ rw (e, send_delta) (record { adds = omega arith; stays_open = o })
    | inr ((b, q), e) ↦
        let p =
          send_batch-Tallied outcome b (record w { queue = q }) n
            (laws.open-get b w.queue q e ∙ o) in
        rw (e, send_delta)
          (record {
            adds = omega (arith, p.adds, laws.waiting-get in_batch b w.queue q e);
            stays_open = p.stays_open;
          })
  ]

  act-Tallied :
      (a : Action) (w : Worker Q)
      → NoneCancelled (a ∷ [])
      → queue.shutting_down w.queue ≡ false
      → Tallied (made_by a) w (act queue version a w)
  unfolding act
  act-Tallied (received e) w n o = receive-Tallied e w o
  act-Tallied (appended e) w n o = append_delta-Tallied e w o
  act-Tallied flushed w n o = flush_batch-Tallied w o
  act-Tallied beaten w n o = beat-Tallied w o
  act-Tallied (sending cancelled) w n o = absurd n
  act-Tallied (sending failed) w n o = send_delta-Tallied failed w (λ e. cc) o
  act-Tallied (sending delivered) w n o = send_delta-Tallied delivered w (λ e. cc) o

  NoneCancelled-head :
      (a : Action) (actions : List Action) → NoneCancelled (a ∷ actions) → NoneCancelled (a ∷ [])
  NoneCancelled-head (received e) actions n = tt
  NoneCancelled-head (appended e) actions n = tt
  NoneCancelled-head flushed actions n = tt
  NoneCancelled-head beaten actions n = tt
  NoneCancelled-head (sending cancelled) actions n = n
  NoneCancelled-head (sending failed) actions n = tt
  NoneCancelled-head (sending delivered) actions n = tt

  NoneCancelled-tail :
      (a : Action) (actions : List Action) → NoneCancelled (a ∷ actions) → NoneCancelled actions
  NoneCancelled-tail (received e) actions n = n
  NoneCancelled-tail (appended e) actions n = n
  NoneCancelled-tail flushed actions n = n
  NoneCancelled-tail beaten actions n = n
  NoneCancelled-tail (sending cancelled) actions n = absurd n
  NoneCancelled-tail (sending failed) actions n = n
  NoneCancelled-tail (sending delivered) actions n = n

  pub act-open :
      (a : Action) (actions : List Action) (w : Worker Q)
      → NoneCancelled (a ∷ actions)
      → queue.shutting_down w.queue ≡ false
      → (queue.shutting_down (act queue version a w).queue ≡ false) × NoneCancelled actions
  act-open a actions w n o = (
    (act-Tallied a w (NoneCancelled-head a actions n) o).stays_open,
    NoneCancelled-tail a actions n,
  )

  -- In whatever order the goroutines take their steps, and whatever sends fail, as long as the queue
  -- is open and no context is cancelled: whatever is counted of the deltas, those made of events and
  -- heartbeats are those sent, those queued and those in the batch, none lost and none made twice.
  pub run-tally :
      (actions : List Action) (w : Worker Q)
      → NoneCancelled actions
      → queue.shutting_down w.queue ≡ false
      → (tally (run queue version actions w) ≡ tally w + total made_by actions)
        × (queue.shutting_down (run queue version actions w).queue ≡ false)
  unfolding run total
  run-tally [] w n o = (omega arith, o)
  run-tally (a ∷ actions) w n o =
      let p = act-Tallied a w (NoneCancelled-head a actions n) o in
      let (e, o') =
        run-tally actions (act queue version a w) (NoneCancelled-tail a actions n) p.stays_open in
      (omega (arith, e, p.adds), o')
