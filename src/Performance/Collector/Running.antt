-- ===== src/Performance/Collector/Running.antt =====
-- The status, the goroutine and the channel of a collector that collects at intervals.
use system_agent.Prelude.{
  Bool, true, false, List, [], ◌∷◌, ◌++◌, append_assoc, append-nil, Option, none, some, ◌≡◌, ◌≢◌,
  refl, sym, ap, ◌∙◌,
}
use system_agent.Performance.Collector.{
  CollectorStatus, active, degraded, disabled, is_disabled, Event, ContinuousPointCollector, launch,
  activate, start, tick, finish, set_error, send_on, BaseContinuousCollector,
}

-- What may happen: `started` and `ended` are the whole of `Start` and of the goroutine's end; a
-- refused `Start` changes nothing, and `ticked` and `ended` need the goroutine.
pub data Action (E D : Type 0) : Type 0 where
  started ended : Action E D
  ticked : Event D → Option E → Action E D

abbrev pub keep : {A : Type 0} → A → Option A → A
keep a none = a
keep a (some b) = b

send_on-some :
    {D : Type 0} (event : Event D) (ch : Option (List (Event D)))
    → ch ≢ none
    → send_on event ch ≢ none
send_on-some event none h e = h refl
send_on-some event (some sent) h e = cc

module _ {E D : Type 0} where
  unfoldable pub act : Action E D → ContinuousPointCollector E D → ContinuousPointCollector E D
  act started c = keep c (start c)
  act ended c = elim c.running [ true ↦ finish c | false ↦ c ]
  act (ticked event err) c = elim c.running [ true ↦ tick event err c | false ↦ c ]

  unfoldable pub run :
      List (Action E D) → ContinuousPointCollector E D → ContinuousPointCollector E D
  run [] c = c
  run (a ∷ actions) c = run actions (act a c)

  -- A collector that is at rest, or that runs and has a channel.
  pub data IsConsistent : ContinuousPointCollector E D → Type 0 where
    at_rest :
        (c : ContinuousPointCollector E D)
        → c.base.status ≡ disabled
        → c.running ≡ false
        → c.channel ≡ none
        → IsConsistent c
    at_work :
        (c : ContinuousPointCollector E D)
        → is_disabled c.base.status ≡ false
        → c.running ≡ true
        → c.channel ≢ none
        → IsConsistent c

  act-IsConsistent :
      (a : Action E D) (c : ContinuousPointCollector E D) → IsConsistent c → IsConsistent (act a c)
  unfolding act start launch activate tick finish set_error
  act-IsConsistent started c (at_rest _ s r h) =
      rw (s, act, start, launch) (at_work _ refl refl (λ e. cc))
  act-IsConsistent started c (at_work _ s r h) = rw (s, act, start, launch) (at_work c s r h)
  act-IsConsistent ended c (at_rest _ s r h) = rw (r, act) (at_rest c s r h)
  act-IsConsistent ended c (at_work _ s r h) = rw (r, act) (at_rest _ refl refl refl)
  act-IsConsistent (ticked event err) c (at_rest _ s r h) = rw (r, act) (at_rest c s r h)
  act-IsConsistent (ticked event none) c (at_work _ s r h) =
      rw (r, act) (at_work _ s r (send_on-some event c.channel h))
  act-IsConsistent (ticked event (some err)) c (at_work _ s r h) = rw (r, act) (at_work _ refl r h)

  -- After any calls of `Start`, ticks and cancellations, a consistent collector is consistent: its
  -- status is disabled exactly while no goroutine runs, and there is a channel exactly while one does.
  pub run-IsConsistent :
      (actions : List (Action E D)) (c : ContinuousPointCollector E D)
      → IsConsistent c
      → IsConsistent (run actions c)
  unfolding run
  run-IsConsistent [] c v = v
  run-IsConsistent (a ∷ actions) c v = run-IsConsistent actions (act a c) (act-IsConsistent a c v)

  -- The ticks of a run, and the events of those that did not fail.
  abbrev pub ticks : List (Event D × Option E) → List (Action E D)
  ticks [] = []
  ticks ((event, err) ∷ rest) = ticked event err ∷ ticks rest

  abbrev pub collected : List (Event D × Option E) → List (Event D)
  collected [] = []
  collected ((event, none) ∷ rest) = event ∷ collected rest
  collected ((event, some err) ∷ rest) = collected rest

  -- The error that the last of the ticks leaves.
  abbrev pub error_left : Option E → List (Event D × Option E) → Option E
  error_left before [] = before
  error_left before ((event, err) ∷ rest) = error_left err rest

  -- One that has failed since the last `Start` is degraded.
  abbrev pub status_left : CollectorStatus → List (Event D × Option E) → CollectorStatus
  status_left before [] = before
  status_left before ((event, none) ∷ rest) = status_left before rest
  status_left before ((event, some err) ∷ rest) = status_left degraded rest

  -- A collector that runs.
  abbrev pub working :
      BaseContinuousCollector E
      → List (Event D)
      → Bool
      → List (List (Event D))
      → ContinuousPointCollector E D
  working base sent starting closed = record {
    base = base;
    channel = some sent;
    running = true;
    starting = starting;
    closed = closed;
  }

  abbrev pub base_left :
      List (Event D × Option E) → BaseContinuousCollector E → BaseContinuousCollector E
  base_left outcomes b = record b {
    status = status_left b.status outcomes;
    last_error = error_left b.last_error outcomes;
  }

  ticks_lem :
      (outcomes : List (Event D × Option E)) (base : BaseContinuousCollector E)
      (sent : List (Event D)) (starting : Bool) (closed : List (List (Event D)))
      → run (ticks outcomes) (working base sent starting closed)
        ≡ working (base_left outcomes base) (sent ++ collected outcomes) starting closed
  unfolding run act tick set_error
  ticks_lem [] base sent st cl = ap (λ l. working base l st cl) (sym (append-nil sent))
  ticks_lem ((event, none) ∷ rest) base sent st cl =
      ticks_lem rest (record base { last_error = none }) (sent ++ (event ∷ [])) st cl
      ∙ ap (λ l. working (base_left rest (record base { last_error = none })) l st cl)
          (append_assoc sent (event ∷ []) (collected rest))
  ticks_lem ((event, some err) ∷ rest) base sent st cl =
      ticks_lem rest (record base { status = degraded; last_error = some err }) sent st cl

  run-append :
      (as_ bs : List (Action E D)) (c : ContinuousPointCollector E D)
      → run (as_ ++ bs) c ≡ run bs (run as_ c)
  unfolding run
  run-append [] bs c = refl
  run-append (a ∷ as_) bs c = run-append as_ bs (act a c)

  started_lem :
      (c : ContinuousPointCollector E D)
      → c.base.status ≡ disabled
      → act started c ≡ working (record c.base { status = active }) [] false c.closed
  unfolding act start launch activate
  started_lem c s = rw (s, act, start, launch) refl

  -- A disabled collector that is started, ticks and is cancelled: the closed channel holds what the
  -- collections that did not fail returned, in their order; the collector is disabled and may be
  -- started again; and its error is the last collection's, none where that did not fail.
  pub run-collects :
      (outcomes : List (Event D × Option E)) (c : ContinuousPointCollector E D)
      → c.base.status ≡ disabled
      → run (started ∷ ticks outcomes ++ (ended ∷ [])) c ≡ record c {
        base = record c.base {
          status = disabled;
          last_error = error_left c.base.last_error outcomes;
        };
        channel = none;
        running = false;
        starting = false;
        closed = c.closed ++ (collected outcomes ∷ []);
      }
  unfolding run act start launch activate finish
  run-collects outcomes c s =
      run-append (ticks outcomes) (ended ∷ []) (act started c)
      ∙ ap (λ d. act ended (run (ticks outcomes) d)) (started_lem c s)
      ∙ ap (act ended) (ticks_lem outcomes (record c.base { status = active }) [] false c.closed)

  -- A collector that failed stays degraded for as long as it runs, however many collections succeed
  -- behind the failed one.
  pub tick-degraded :
      (before after : List (Event D × Option E)) (event : Event D) (err : E)
      (c : ContinuousPointCollector E D)
      → c.base.status ≡ disabled
      → (run (started ∷ ticks (before ++ ((event, some err) ∷ after))) c).base.status ≡ degraded
  unfolding run act start launch activate
  tick-degraded before after event err c s =
      ap (λ d. (run (ticks (before ++ ((event, some err) ∷ after))) d).base.status)
        (started_lem c s)
      ∙ ap (λ d. d.base.status)
          (ticks_lem (before ++ ((event, some err) ∷ after)) _ [] false c.closed)
      ∙ status_left_lem before active
    where
      status_after : (after : List (Event D × Option E)) → status_left degraded after ≡ degraded
      status_after [] = refl
      status_after ((event, none) ∷ rest) = status_after rest
      status_after ((event, some err) ∷ rest) = status_after rest

      status_left_lem :
          (before : List (Event D × Option E)) (st : CollectorStatus)
          → status_left st (before ++ ((event, some err) ∷ after)) ≡ degraded
      status_left_lem [] st = status_after after
      status_left_lem ((event, none) ∷ rest) st = status_left_lem rest st
      status_left_lem ((event, some err) ∷ rest) st = status_left_lem rest degraded

  -- Where the goroutine ends before `Start` sets the status, the collector is left active with no
  -- goroutine, and no later `Start`, tick or cancellation changes anything.
  pub finish-before-activate :
      (c c' : ContinuousPointCollector E D) (later : List (Action E D))
      → launch c ≡ some c'
      → ((activate (finish c')).base.status ≡ active)
        × ((activate (finish c')).running ≡ false)
        × (run later (activate (finish c')) ≡ activate (finish c'))
  unfolding run act start launch activate finish
  finish-before-activate c c' later e = (refl, refl, stuck later)
    where
      stuck_act : (a : Action E D) → act a (activate (finish c')) ≡ activate (finish c')
      stuck_act started = refl
      stuck_act ended = refl
      stuck_act (ticked event err) = refl

      stuck :
          (actions : List (Action E D)) → run actions (activate (finish c')) ≡ activate (finish c')
      stuck [] = refl
      stuck (a ∷ actions) = ap (run actions) (stuck_act a) ∙ stuck actions
