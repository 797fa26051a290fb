-- ===== src/Intake/Tests.antt =====
-- A worker whose queue is a list of batches with a flag.
use mathlib.Core.Option
use system_agent.Prelude.{
  sym, ap, ◌∙◌, ◌≡◌, refl, Bool, false, List, [], ◌∷◌, Option, none, some, arith,
}
use system_agent.Prelude.Text.{Str, codes}
use system_agent.Store.Types.{Event, add}
use system_agent.Intake.{
  DeltasBatch, Queue, Worker, Outcome, failed, delivered, Action, received, flushed, beaten,
  sending, run,
}
use system_agent.Intake.Conservation.{IsQueue, total, run-tally, tally}
use system_agent.Intake.Drain.{sends-drain, sends}
use system_agent.Intake.Bounds.{IsBounded, run-IsBounded}

record ListQueue : Type 0 where
  batches : List DeltasBatch
  processing : List DeltasBatch
  shutting : Bool

-- A queue that hands out one batch at a time.
abbrev list_get : ListQueue → Option (DeltasBatch × ListQueue)
list_get q = elim q.processing [
  | [] ↦ elim q.batches [
    | [] ↦ none
    | b ∷ bs ↦ some (b, record q { batches = bs; processing = b ∷ [] })
  ]
  | _ ∷ _ ↦ none
]

abbrev list_queue : Queue ListQueue
list_queue = record {
  add_rate_limited = λ b q. record q { batches = b ∷ q.batches };
  get = list_get;
  done_ = λ b q. record q { processing = elim q.processing [ [] ↦ [] | _ ∷ bs ↦ bs ] };
  forget = λ b q. q;
  shutting_down = λ q. q.shutting;
}

-- What a batch that was handed out leaves behind.
record Handed (b : DeltasBatch) (q q' : ListQueue) : Type 0 where
  batch : q.batches ≡ b ∷ q'.batches
  now_busy : q'.processing ≡ b ∷ q.processing
  shutting : q.shutting ≡ q'.shutting

list_queue-get :
    (b : DeltasBatch) (bs ps : List DeltasBatch) (c : Bool) (q' : ListQueue)
    → list_get (record { batches = bs; processing = ps; shutting = c }) ≡ some (b, q')
    → Handed b (record { batches = bs; processing = ps; shutting = c }) q'
list_queue-get b [] [] c q' e = absurd cc
list_queue-get b bs (p ∷ ps) c q' e = absurd cc
list_queue-get b (b' ∷ bs) [] c q' e =
    let p = mathlib.Core.Option.some-injective _ _ e in
    record {
      batch = ap (λ x. x.0 ∷ x.1.batches) p;
      now_busy = sym (ap (λ x. x.1.processing) p) ∙ ap (λ x. x.0 ∷ []) p;
      shutting = ap (λ x. x.1.shutting) p;
    }

list_queue-IsQueue : IsQueue list_queue (λ q. q.batches) (λ q. q.processing)
unfolding total
list_queue-IsQueue = record {
  waiting-add = λ f b q o. refl;
  waiting-get = λ f b q q' e. ap (total f) (handed b q q' e).batch;
  waiting-done = λ b q. refl;
  waiting-forget = λ b q. refl;
  busy-add = λ b q. refl;
  busy-get = λ b q q' e. (handed b q q' e).now_busy;
  busy-done = λ b q e. ap (λ (ps : List DeltasBatch). elim ps [ [] ↦ [] | _ ∷ bs ↦ bs ]) e;
  busy-forget = λ b q. refl;
  get-none = λ q idle e. get_none q.batches q.processing q.shutting idle e;
  open-add = λ b q. refl;
  open-get = λ b q q' e. sym (handed b q q' e).shutting;
  open-done = λ b q. refl;
  open-forget = λ b q. refl;
}
  where
    handed : (b : DeltasBatch) (q q' : ListQueue) → list_get q ≡ some (b, q') → Handed b q q'
    handed b q q' e = list_queue-get b q.batches q.processing q.shutting q' e

    get_none :
        (bs ps : List DeltasBatch) (c : Bool)
        → ps ≡ []
        → list_get (record { batches = bs; processing = ps; shutting = c }) ≡ none
        → bs ≡ []
    get_none [] ps c idle e = refl
    get_none (b ∷ bs) [] c idle e = absurd cc
    get_none (b ∷ bs) (p ∷ ps) c idle e = absurd cc

abbrev worker : Worker ListQueue
worker = record {
  queue = record { batches = []; processing = []; shutting = false };
  batch = record { deltas = []; id = 1 };
  batch_counter = 1;
  max_batch_size = 2;
  has_stream = false;
  sent = [];
}

abbrev event : Event
event = record { type = add; objs = [] }

abbrev schedule : List Action
schedule =
    received event
    ∷ received event
    ∷ beaten
    ∷ sending failed
    ∷ sending delivered
    ∷ received event
    ∷ flushed
    ∷ sending delivered
    ∷ []

abbrev version : Str
version = codes "v"

run-tally_example :
    (tally list_queue version
        (λ q. q.batches)
        (λ q. q.processing)
        list_queue-IsQueue
        (λ d. 1)
        (run list_queue version schedule worker)
      ≡ 4)
    × ((run list_queue version schedule worker).queue.shutting ≡ false)
unfolding total
run-tally_example =
    run-tally list_queue version (λ q. q.batches) (λ q. q.processing) list_queue-IsQueue (λ d. 1)
      schedule worker tt refl

worker-IsBounded :
    IsBounded list_queue version (λ q. q.batches) (λ q. q.processing) list_queue-IsQueue 2 worker
unfolding total
worker-IsBounded = record {
  has_limit = refl;
  has_room = omega arith;
  waits_small = refl;
  sent_small = refl;
  is_open = refl;
}

run-IsBounded_example :
    IsBounded list_queue version
      (λ q. q.batches)
      (λ q. q.processing)
      list_queue-IsQueue
      2
      (run list_queue version schedule worker)
run-IsBounded_example =
    run-IsBounded list_queue version (λ q. q.batches) (λ q. q.processing) list_queue-IsQueue 2
      schedule worker tt worker-IsBounded

-- A worker with three batches that wait.
abbrev loaded : Worker ListQueue
loaded = record worker {
  queue = record {
    batches = worker.batch ∷ worker.batch ∷ worker.batch ∷ [];
    processing = [];
    shutting = false;
  };
}

abbrev outcomes : List Outcome
outcomes = delivered ∷ failed ∷ delivered ∷ failed ∷ delivered ∷ []

sends-drain_example :
    ((run list_queue version (sends outcomes) loaded).queue.batches ≡ [])
    × ((run list_queue version (sends outcomes) loaded).queue.processing ≡ [])
unfolding total
sends-drain_example =
    sends-drain list_queue version (λ q. q.batches) (λ q. q.processing) list_queue-IsQueue outcomes
      loaded tt refl refl (omega arith)
