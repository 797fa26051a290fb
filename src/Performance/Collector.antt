-- ===== src/Performance/Collector.antt =====
-- pkg/performance/collector.go, with the status and the event of pkg/performance/types.go: the two
-- wrappers that make a collector of points a continuous one. `E` is what errors are, `D` what an
-- event carries (`none` is a nil `Data`). What `Collect` returns is given to the operation that calls
-- it. The logger is left out.
pub mod Running
pub mod Once
use system_agent.Prelude.{
  Bool, true, false, List, [], ◌∷◌, ◌++◌, Option, none, some, if◌then◌else◌, ◌≡◌, not,
}
use system_agent.Prelude.Text.{Str}
use system_agent.Performance.Capabilities.{Capability}

pub data CollectorStatus : Type 0 where
  active degraded failed disabled : CollectorStatus

abbrev pub is_disabled : CollectorStatus → Bool
is_disabled disabled = true
is_disabled _ = false

pub record Event (D : Type 0) : Type 0 where
  pub metric : Str
  pub data_ : Option D

pub record CollectorCapabilities : Type 0 where
  pub supports_one_shot : Bool
  pub supports_continuous : Bool
  pub required_capabilities : List Capability
  pub min_kernel_version : Str

pub record BaseContinuousCollector (E : Type 0) : Type 0 where
  pub metric_type : Str
  pub name : Str
  pub capabilities : CollectorCapabilities
  pub status : CollectorStatus
  pub last_error : Option E

-- What the wrappers ask a point collector for.
pub record PointCollector : Type 0 where
  pub type : Str
  pub name : Str
  pub capabilities : CollectorCapabilities

module _ {E : Type 0} where
  abbrev pub new_base_continuous_collector :
      Str → Str → CollectorCapabilities → BaseContinuousCollector E
  new_base_continuous_collector metric_type name capabilities = record {
    metric_type = metric_type;
    name = name;
    capabilities = capabilities;
    status = disabled;
    last_error = none;
  }

  abbrev pub set_status : CollectorStatus → BaseContinuousCollector E → BaseContinuousCollector E
  set_status status b = record b { status = status }

  unfoldable pub set_error : Option E → BaseContinuousCollector E → BaseContinuousCollector E
  set_error none b = record b { last_error = none }
  set_error (some e) b = record b { last_error = some e; status = failed }

-- `channel` is `ch`: `none` is nil, and a channel is what was sent on it. A send on a full channel
-- waits, and is then a later step. Not in the source are `running`, that the goroutine `start` runs,
-- `starting`, that `Start` is behind its `go` and not yet at `SetStatus`, and `closed`, the channels
-- that were closed.
pub record ContinuousPointCollector (E D : Type 0) : Type 0 where
  pub base : BaseContinuousCollector E
  pub channel : Option (List (Event D))
  pub running : Bool
  pub starting : Bool
  pub closed : List (List (Event D))

-- `ch <- data`.
abbrev pub send_on : {D : Type 0} → Event D → Option (List (Event D)) → Option (List (Event D))
send_on event none = none
send_on event (some sent) = some (sent ++ (event ∷ []))

module _ {E D : Type 0} where
  abbrev pub new_continuous_point_collector : PointCollector → ContinuousPointCollector E D
  new_continuous_point_collector p =
      let caps : CollectorCapabilities = record {
        supports_one_shot = false;
        supports_continuous = true;
        required_capabilities = p.capabilities.required_capabilities;
        min_kernel_version = p.capabilities.min_kernel_version;
      } in
      record {
        base = new_base_continuous_collector p.type p.name caps;
        channel = none;
        running = false;
        starting = false;
        closed = [];
      }

  -- `Start` up to its `go` statement, with which `start` begins to run; `none` is its error.
  unfoldable pub launch : ContinuousPointCollector E D → Option (ContinuousPointCollector E D)
  launch c =
      if is_disabled c.base.status
      then some (record c { channel = some []; running = true; starting = true })
      else none

  -- `Start` behind its `go` statement.
  unfoldable pub activate : ContinuousPointCollector E D → ContinuousPointCollector E D
  activate c = record c { base = set_status active c.base; starting = false }

  -- All of `Start`, where the goroutine takes no step before it returns.
  unfoldable pub start : ContinuousPointCollector E D → Option (ContinuousPointCollector E D)
  start c = elim (launch c) [ none ↦ none | some c' ↦ some (activate c') ]

  -- What the loop of `start` does at a tick, with what `Collect` returned.
  unfoldable pub tick :
      Event D → Option E → ContinuousPointCollector E D → ContinuousPointCollector E D
  tick event (some e) c = record c { base = set_status degraded (set_error (some e) c.base) }
  tick event none c = record c { base = set_error none c.base; channel = send_on event c.channel }

  -- What `start` does when its context is done.
  unfoldable pub finish : ContinuousPointCollector E D → ContinuousPointCollector E D
  finish c = record c {
    base = set_status disabled c.base;
    channel = none;
    running = false;
    closed = elim c.channel [ none ↦ c.closed | some sent ↦ c.closed ++ (sent ∷ []) ];
  }

-- `once` is that `sync.Once` has run.
pub record OnceContinuousCollector (E D : Type 0) : Type 0 where
  pub base : BaseContinuousCollector E
  pub result : Event D
  pub once : Bool

module _ {E D : Type 0} where
  abbrev pub new_once_continuous_collector : PointCollector → OnceContinuousCollector E D
  new_once_continuous_collector p =
      let caps : CollectorCapabilities = record {
        supports_one_shot = true;
        supports_continuous = false;
        required_capabilities = p.capabilities.required_capabilities;
        min_kernel_version = p.capabilities.min_kernel_version;
      } in
      record {
        base = new_base_continuous_collector p.type p.name caps;
        result = record { metric = []; data_ = none };
        once = false;
      }

  -- The function that `once` runs, with what `Collect` returned.
  abbrev pub collect_once :
      Event D → Option E → OnceContinuousCollector E D → OnceContinuousCollector E D
  collect_once event none c = record c { base = set_error none c.base; result = event; once = true }
  collect_once event (some e) c = record c {
    base = set_status failed (set_error (some e) c.base);
    result = event;
    once = true;
  }

  -- `Start`, with what `Collect` returns if it is called: the events in the closed channel that it
  -- returns and its error, or `none` for a refusal.
  unfoldable pub start_once :
      Event D
      → Option E
      → OnceContinuousCollector E D
      → Option (List (Event D) × Option E) × OnceContinuousCollector E D
  start_once event err c =
      let c1 : OnceContinuousCollector E D = record c { base = set_status active c.base } in
      let c2 = if c1.once then c1 else collect_once event err c1 in
      let ch : List (Event D) = elim c2.result.data_ [ none ↦ [] | some d ↦ c2.result ∷ [] ] in
      if is_disabled c.base.status
      then (some (ch, c2.base.last_error), record c2 { base = set_status disabled c2.base })
      else (none, c)
