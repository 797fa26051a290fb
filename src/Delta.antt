-- ===== src/Delta.antt =====
-- pkg/performance/delta.go, with the configuration of pkg/performance/types.go: the state from
-- which a collector computes differences of counters. An instant is a number of nanoseconds since
-- the zero time of Go, a duration is an int64 of nanoseconds.
pub mod State
mod Tests
use system_agent.Prelude.{
  ℕ, ◌+◌, ◌-◌, ◌%◌, ◌^◌, Bool, true, false, List, [], ◌∷◌, Option, none, some, ◌&&◌, ◌||◌, not, ltb,
  if◌then◌else◌, ◌≡◌, refl,
}
use system_agent.Prelude.Int.{ℤ, pos, negsuc, ltb_ℤ, eqb_ℤ, ◌-ℤ◌}

pub data DeltaCalculationMode : Type 0 where
  disabled enabled unset : DeltaCalculationMode

-- The metric types that the switch of `isSupported` names, and the rest.
pub data MetricType : Type 0 where
  tcp network cpu system disk memory numa_stats other : MetricType

pub record DeltaConfig : Type 0 where
  pub mode : DeltaCalculationMode
  pub min_interval : ℤ
  pub max_interval : ℤ

is_disabled : DeltaCalculationMode → Bool
is_disabled disabled = true
is_disabled _ = false

is_supported : MetricType → Bool
is_supported other = false
is_supported _ = true

unfoldable pub is_enabled : DeltaConfig → MetricType → Bool
unfolding is_disabled is_supported
is_enabled d metric_type = if is_disabled d.mode then false else is_supported metric_type

-- The fields of BaseDeltaCollector that the methods use.
pub record BaseDeltaCollector (A : Type 0) : Type 0 where
  pub config : DeltaConfig
  pub last_snapshot : Option A
  pub last_time : ℤ
  pub is_first : Bool

pub record DeltaMetadata : Type 0 where
  pub collection_interval : ℤ
  pub last_collection_time : ℤ
  pub is_first_collection : Bool
  pub counter_reset_detected : Bool

-- The reason that `ShouldCalculateDeltas` returns beside `false`.
pub data Reason : Type 0 where
  delta_disabled no_previous_state time_went_backwards interval_too_large interval_too_small :
      Reason

-- time.Time.Sub stays within the durations.
abbrev pub saturate : ℤ → ℤ
saturate (pos n) = if ltb n (2 ^ 63) then pos n else pos (2 ^ 63 - 1)
saturate (negsuc n) = if ltb n (2 ^ 63) then negsuc n else negsuc (2 ^ 63 - 1)

unfoldable pub time_sub : ℤ → ℤ → ℤ
unfolding ◌-ℤ◌
time_sub t u = saturate (t -ℤ u)

abbrev pub is_zero : ℤ → Bool
is_zero t = eqb_ℤ t (pos 0)

module _ {A : Type 0} where
  unfoldable pub new : DeltaConfig → BaseDeltaCollector A
  new config = record { config = config; last_snapshot = none; last_time = pos 0; is_first = true }

  unfoldable pub reset_delta_state : BaseDeltaCollector A → BaseDeltaCollector A
  reset_delta_state b = record b { last_snapshot = none; last_time = pos 0; is_first = true }

  unfoldable pub has_delta_state : BaseDeltaCollector A → Bool
  has_delta_state b = not b.is_first && elim b.last_snapshot [ none ↦ false | some _ ↦ true ]

  -- The snapshot may be nil, as an `any` may.
  unfoldable pub update_delta_state : Option A → ℤ → BaseDeltaCollector A → BaseDeltaCollector A
  update_delta_state snapshot current_time b = record b {
    last_snapshot = snapshot;
    last_time = current_time;
    is_first = false;
  }

  -- `none` is `true` with the empty reason.
  unfoldable pub should_calculate_deltas : ℤ → BaseDeltaCollector A → Option Reason
  unfolding is_disabled time_sub
  should_calculate_deltas current_time b =
      let interval = time_sub current_time b.last_time in
      if is_disabled b.config.mode
      then some delta_disabled
      else if b.is_first || is_zero b.last_time
      then some no_previous_state
      else if ltb_ℤ interval (pos 0)
      then some time_went_backwards
      else if ltb_ℤ b.config.max_interval interval
      then some interval_too_large
      else if ltb_ℤ interval b.config.min_interval
      then some interval_too_small
      else none

  unfoldable pub create_delta_metadata : ℤ → Bool → BaseDeltaCollector A → DeltaMetadata
  create_delta_metadata current_time reset_detected b = record {
    collection_interval =
        if not b.is_first && not (is_zero b.last_time)
        then time_sub current_time b.last_time
        else pos 0;
    last_collection_time = b.last_time;
    is_first_collection = b.is_first;
    counter_reset_detected = reset_detected;
  }

-- The values are uint64; the difference is not taken where it would wrap.
unfoldable pub calculate_uint64_delta : ℕ → ℕ → ℕ × Bool
calculate_uint64_delta current previous =
    if ltb current previous then (0, true) else ((current + 2 ^ 64 - previous) % 2 ^ 64, false)
