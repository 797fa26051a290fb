-- ===== src/Intake/Bounds.antt =====
-- The worker's requests are no larger than its batches may be, where the two halves of a round of
-- `Start` are not parted by other steps that append.
use system_agent.Prelude.{
  ℕ, ◌+◌, ◌≤◌, ◌<◌, ◌≡◌, ap, ◌∙◌, false, List, [], ◌∷◌, arith, length, length-append, leb, ◌==◌,
  if◌then◌else◌, Option-cases, Bool-cases, inl, inr,
}
use system_agent.Prelude.Text.{Str}
use system_agent.Intake.{
  DeltasBatch, Queue, Worker, Outcome, cancelled, failed, delivered, Action, received, appended,
  flushed, beaten, sending, heartbeat, new_deltas_batch, flush_batch, append_delta, receive, beat,
  send_batch, send_delta, act, run,
}
use system_agent.Intake.Conservation.{IsQueue, total, total-append}

-- No step appends alone.
abbrev pub WholeRounds : List Action → Type 0
WholeRounds [] = Unit
WholeRounds (appended e ∷ actions) = ⊥
WholeRounds (_ ∷ actions) = WholeRounds actions

-- One for a list with more than `n` elements.
pub oversized : {A : Type 0} → ℕ → List A → ℕ
oversized n xs = if leb (length xs) n then 0 else 1

module _ {Q : Type 0} (queue : Queue Q) (version : Str) (waiting busy : Q → List DeltasBatch)
    (laws : IsQueue queue waiting busy) (limit : ℕ) where
  abbrev too_big : DeltasBatch → ℕ
  too_big b = oversized limit b.deltas

  -- An open worker with the limit `limit`: its own batch has room, and no batch that waits, and no
  -- request that was sent, is beyond the limit.
  pub record IsBounded (w : Worker Q) : Type 0 where
    pub has_limit : w.max_batch_size ≡ limit
    pub has_room : length w.batch.deltas < limit
    pub waits_small : total too_big (waiting w.queue) ≡ 0
    pub sent_small : total (oversized limit) w.sent ≡ 0
    pub is_open : queue.shutting_down w.queue ≡ false

  oversized-small : {A : Type 0} (xs : List A) → length xs ≤ limit → oversized limit xs ≡ 0
  unfolding oversized
  oversized-small xs h = ground arith

  small-oversized : {A : Type 0} (xs : List A) → oversized limit xs ≡ 0 → length xs ≤ limit
  unfolding oversized
  small-oversized xs h = ground arith

  -- A batch that is within the limit, flushed.
  flush_batch-IsBounded :
      (w : Worker Q)
      → w.max_batch_size ≡ limit
      → 1 ≤ limit
      → length w.batch.deltas ≤ limit
      → total too_big (waiting w.queue) ≡ 0
      → total (oversized limit) w.sent ≡ 0
      → queue.shutting_down w.queue ≡ false
      → IsBounded (flush_batch queue version w)
  unfolding flush_batch new_deltas_batch
  flush_batch-IsBounded w l p small_ q s o = elim (Bool-cases (length w.batch.deltas == 0)) [
    | inl empty ↦ rw empty (record {
      has_limit = l;
      has_room = ground arith;
      waits_small = q;
      sent_small = s;
      is_open = o;
    })
    | inr full ↦ rw full (record {
      has_limit = l;
      has_room = p;
      waits_small = omega (
        arith,
        laws.waiting-add too_big w.batch w.queue o,
        oversized-small w.batch.deltas small_,
        q,
      );
      sent_small = s;
      is_open = laws.open-add w.batch w.queue ∙ o;
    })
  ]

  receive-IsBounded : (e : _) (w : Worker Q) → IsBounded w → IsBounded (receive queue version e w)
  unfolding receive append_delta
  receive-IsBounded e w v =
      let w' = append_delta queue version e w in
      let p : length w'.batch.deltas ≡ length w.batch.deltas + 1 = length-append w.batch.deltas _ in
      elim (Bool-cases (leb w'.max_batch_size (length w'.batch.deltas))) [
        | inl full ↦ rw full (
            flush_batch-IsBounded w' v.has_limit (omega (arith, v.has_room))
              (omega (arith, p, v.has_room)) v.waits_small v.sent_small v.is_open)
        | inr room ↦ rw room (record {
          has_limit = v.has_limit;
          has_room = ground (arith, room, v.has_limit);
          waits_small = v.waits_small;
          sent_small = v.sent_small;
          is_open = v.is_open;
        })
      ]

  beat-IsBounded : (w : Worker Q) → IsBounded w → IsBounded (beat queue version w)
  unfolding beat new_deltas_batch
  beat-IsBounded w v = record {
    has_limit = v.has_limit;
    has_room = v.has_room;
    waits_small = omega (
      arith,
      laws.waiting-add too_big _ w.queue v.is_open,
      oversized-small (heartbeat version ∷ []) (omega (arith, v.has_room)),
      v.waits_small,
    );
    sent_small = v.sent_small;
    is_open = laws.open-add _ w.queue ∙ v.is_open;
  }

  send_batch-IsBounded :
      (o : Outcome) (b : DeltasBatch) (w : Worker Q)
      → length b.deltas ≤ limit
      → IsBounded w
      → IsBounded (send_batch queue version o b w)
  unfolding send_batch total
  send_batch-IsBounded cancelled b w small_ v = record {
    has_limit = v.has_limit;
    has_room = v.has_room;
    waits_small = ap (total too_big) (laws.waiting-done b w.queue) ∙ v.waits_small;
    sent_small = v.sent_small;
    is_open = laws.open-done b w.queue ∙ v.is_open;
  }
  send_batch-IsBounded failed b w small_ v = rw v.is_open (record {
    has_limit = v.has_limit;
    has_room = v.has_room;
    waits_small = rw (laws.waiting-done b (queue.add_rate_limited b w.queue)) (
        omega (
          arith,
          laws.waiting-add too_big b w.queue v.is_open,
          oversized-small b.deltas small_,
          v.waits_small,
        ));
    sent_small = v.sent_small;
    is_open = laws.open-done b _ ∙ laws.open-add b w.queue ∙ v.is_open;
  })
  send_batch-IsBounded delivered b w small_ v = record {
    has_limit = v.has_limit;
    has_room = v.has_room;
    waits_small =
        ap (total too_big)
          (laws.waiting-done b (queue.forget b w.queue) ∙ laws.waiting-forget b w.queue)
        ∙ v.waits_small;
    sent_small = omega (
      arith,
      total-append (oversized limit) w.sent (b.deltas ∷ []),
      oversized-small b.deltas small_,
      v.sent_small,
    );
    is_open = laws.open-done b _ ∙ laws.open-forget b w.queue ∙ v.is_open;
  }

  send_delta-IsBounded :
      (o : Outcome) (w : Worker Q) → IsBounded w → IsBounded (send_delta queue version o w)
  unfolding send_delta
  send_delta-IsBounded o w v = elim (Option-cases (queue.get w.queue)) [
    | inl e ↦ rw (e, send_delta) v
    | inr ((b, q), e) ↦
        let t = laws.waiting-get too_big b w.queue q e in
        let v' : IsBounded (record w { queue = q }) = record {
          has_limit = v.has_limit;
          has_room = v.has_room;
          waits_small = omega (arith, t, v.waits_small);
          sent_small = v.sent_small;
          is_open = laws.open-get b w.queue q e ∙ v.is_open;
        } in
        rw (e, send_delta)
          (send_batch-IsBounded o b _ (small-oversized b.deltas (omega (arith, t, v.waits_small)))
            v')
  ]

  -- While the queue is open and appending an event is not parted from the flush it calls for, every
  -- step keeps a worker bounded: no request and no batch that waits has more than `limit` deltas.
  pub run-IsBounded :
      (actions : List Action) (w : Worker Q)
      → WholeRounds actions
      → IsBounded w
      → IsBounded (run queue version actions w)
  unfolding run act
  run-IsBounded [] w r v = v
  run-IsBounded (received e ∷ actions) w r v = run-IsBounded actions _ r (receive-IsBounded e w v)
  run-IsBounded (appended e ∷ actions) w r v = absurd r
  run-IsBounded (flushed ∷ actions) w r v = run-IsBounded actions _ r (
      flush_batch-IsBounded w v.has_limit (omega (arith, v.has_room)) (omega (arith, v.has_room))
        v.waits_small v.sent_small v.is_open)
  run-IsBounded (beaten ∷ actions) w r v = run-IsBounded actions _ r (beat-IsBounded w v)
  run-IsBounded (sending o ∷ actions) w r v = run-IsBounded actions _ r (send_delta-IsBounded o w v)
