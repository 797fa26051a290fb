-- ===== src/Delta/Tests.antt =====
-- Differences at concrete collections.
use system_agent.Prelude.{ℕ, ◌≡◌, ◌⊎◌, refl, false, true, List, [], ◌∷◌, none, some}
use system_agent.Prelude.Int.{pos}
use system_agent.Delta.{
  enabled, BaseDeltaCollector, should_calculate_deltas, calculate_uint64_delta, reset_delta_state,
  has_delta_state, delta_disabled, no_previous_state,
}
use system_agent.Delta.State.{should_calculate_deltas-reset, any_reset}

abbrev collector : BaseDeltaCollector ℕ
collector = record {
  config = record { mode = enabled; min_interval = pos 10; max_interval = pos 100 };
  last_snapshot = none;
  last_time = pos 0;
  is_first = true;
}

should_calculate_deltas-reset_example :
    ((should_calculate_deltas (pos 57) (reset_delta_state collector) ≡ some delta_disabled)
      ⊎ (should_calculate_deltas (pos 57) (reset_delta_state collector) ≡ some no_previous_state))
    × (has_delta_state (reset_delta_state collector) ≡ false)
should_calculate_deltas-reset_example = should_calculate_deltas-reset (pos 57) collector

abbrev readings : List ℕ
readings = 12 ∷ 12 ∷ 40 ∷ []

no_reset : any_reset 7 readings ≡ false
unfolding any_reset calculate_uint64_delta
no_reset = refl
