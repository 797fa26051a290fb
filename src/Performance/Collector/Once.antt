-- ===== src/Performance/Collector/Once.antt =====
-- A collector that collects once.
use system_agent.Prelude.{Bool, true, false, List, [], ◌∷◌, Option, none, some, ◌≡◌, refl, ap, ◌∙◌}
use system_agent.Performance.Collector.{
  CollectorStatus, active, degraded, failed, disabled, Event, OnceContinuousCollector, start_once,
  set_error, BaseContinuousCollector,
}

-- What the channel that `Start` returns holds.
abbrev pub delivered : {D : Type 0} → Event D → List (Event D)
delivered event = elim event.data_ [ none ↦ [] | some d ↦ event ∷ [] ]

module _ {E D : Type 0} where
  -- The collector behind calls of `Start`, with what `Collect` would return at each.
  unfoldable pub starts :
      List (Event D × Option E) → OnceContinuousCollector E D → OnceContinuousCollector E D
  starts [] c = c
  starts ((event, err) ∷ rest) c = starts rest (start_once event err c).1

  -- A collector that has collected is left as it is, and answers the same, whatever `Collect` would say.
  start_once-same :
      (event : Event D) (err : Option E) (st : CollectorStatus) (once : Bool)
      (b : BaseContinuousCollector E) (result : Event D)
      → st ≡ disabled
      → once ≡ true
      → start_once event err
          (record { base = record b { status = st }; result = result; once = once })
        ≡ (
          some (delivered result, b.last_error),
          record { base = record b { status = disabled }; result = result; once = true },
        )
  unfolding start_once
  start_once-same event err active once b result s o = absurd cc
  start_once-same event err degraded once b result s o = absurd cc
  start_once-same event err failed once b result s o = absurd cc
  start_once-same event err disabled false b result s o = absurd cc
  start_once-same event err disabled true b result s o = refl

  start_once-first :
      (event : Event D) (err : Option E) (st : CollectorStatus) (once : Bool)
      (b : BaseContinuousCollector E) (result : Event D)
      → st ≡ disabled
      → once ≡ false
      → start_once event err
          (record { base = record b { status = st }; result = result; once = once })
        ≡ (
          some (delivered event, err),
          record {
            base = record b { status = disabled; last_error = err };
            result = event;
            once = true;
          },
        )
  unfolding start_once set_error
  start_once-first event err active once b result s o = absurd cc
  start_once-first event err degraded once b result s o = absurd cc
  start_once-first event err failed once b result s o = absurd cc
  start_once-first event err disabled true b result s o = absurd cc
  start_once-first event none disabled false b result s o = refl
  start_once-first event (some e) disabled false b result s o = refl

  starts-same :
      (rest : List (Event D × Option E)) (b : BaseContinuousCollector E) (result : Event D)
      → starts rest (record { base = record b { status = disabled }; result = result; once = true })
        ≡ record { base = record b { status = disabled }; result = result; once = true }
  unfolding starts
  starts-same [] b result = refl
  starts-same ((event, err) ∷ rest) b result =
      ap (λ p. starts rest p.1) (start_once-same event err disabled true b result refl refl)
      ∙ starts-same rest b result

  -- A disabled collector that has not collected collects at its first `Start` and at no later one: the
  -- first `Start` and every later one answer with the first collection's event, where it has data, and
  -- with its error, and each leaves the collector disabled, also where the collection failed.
  pub start_once-repeats :
      (event event' : Event D) (err err' : Option E) (rest : List (Event D × Option E))
      (c : OnceContinuousCollector E D)
      → c.base.status ≡ disabled
      → c.once ≡ false
      → ((start_once event err c).0 ≡ some (delivered event, err))
        × ((start_once event' err' (starts rest (start_once event err c).1)).0
            ≡ some (delivered event, err))
        × ((starts rest (start_once event err c).1).base.status ≡ disabled)
  start_once-repeats event event' err err' rest c s o =
      let first = start_once-first event err c.base.status c.once c.base c.result s o in
      let settled =
        ap (λ p. starts rest p.1) first
        ∙ starts-same rest (record c.base { last_error = err }) event in
      (
        ap (λ p. p.0) first,
        ap (λ d. (start_once event' err' d).0) settled
            ∙ ap (λ p. p.0)
                (start_once-same event' err' disabled true (record c.base { last_error = err })
                  event refl refl),
        ap (λ d. d.base.status) settled,
      )
