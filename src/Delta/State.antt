-- ===== src/Delta/State.antt =====
-- When differences are computed, and that a sum of them is the growth of the counter.
use system_agent.Prelude.{
  ℕ, ◌+◌, ◌^◌, ◌<◌, Bool, true, false, List, [], ◌∷◌, Option, none, some, ◌≡◌, arith, ◌↔◌, ◌⊎◌,
}
use system_agent.Prelude.Int.{ℤ, pos, ◌≤ℤ◌}
use system_agent.Delta.{
  enabled, BaseDeltaCollector, time_sub, update_delta_state, reset_delta_state, has_delta_state,
  should_calculate_deltas, create_delta_metadata, calculate_uint64_delta, no_previous_state,
  is_zero, delta_disabled,
}

module _ {A : Type 0} where
  -- After a collection at a nonzero time, with differences enabled, the next collection computes
  -- differences exactly when the interval since then is not negative and lies within the
  -- configured bounds; and the metadata shows that interval.
  pub should_calculate_deltas_iff :
      (s : Option A) (t u : ℤ) (b : BaseDeltaCollector A)
      → b.config.mode ≡ enabled
      → (is_zero t ≡ false)
      → ((should_calculate_deltas u (update_delta_state s t b) ≡ none) ↔ (
          (pos 0 ≤ℤ time_sub u t)
          × (time_sub u t ≤ℤ b.config.max_interval)
          × (b.config.min_interval ≤ℤ time_sub u t)))
        × ((create_delta_metadata u false (update_delta_state s t b)).collection_interval
            ≡ time_sub u t)
  unfolding should_calculate_deltas update_delta_state create_delta_metadata
  should_calculate_deltas_iff s t u b e z = ground (arith)

  -- Without a previous collection, or after a reset, nothing is computed: the reason is that
  -- differences are disabled or that there is no state.
  pub should_calculate_deltas-reset :
      (u : ℤ) (b : BaseDeltaCollector A)
      → ((should_calculate_deltas u (reset_delta_state b) ≡ some delta_disabled)
          ⊎ (should_calculate_deltas u (reset_delta_state b) ≡ some no_previous_state))
        × (has_delta_state (reset_delta_state b) ≡ false)
  unfolding should_calculate_deltas reset_delta_state has_delta_state
  should_calculate_deltas-reset u b = ground arith

-- A reading of a uint64 counter.
abbrev pub IsWord : ℕ → Type 0
IsWord n = n < 2 ^ 64

-- The sum of the differences along readings of a counter, from a first reading.
pub sum_of_deltas : ℕ → List ℕ → ℕ
sum_of_deltas previous [] = 0
sum_of_deltas previous (c ∷ cs) = (calculate_uint64_delta c previous).0 + sum_of_deltas c cs

abbrev pub AreWords : List ℕ → Type 0
AreWords [] = Unit
AreWords (c ∷ cs) = IsWord c × AreWords cs

abbrev pub final : ℕ → List ℕ → ℕ
final c [] = c
final c (d ∷ ds) = final d ds

-- Whether some reading is flagged as a reset.
unfoldable pub any_reset : ℕ → List ℕ → Bool
any_reset previous [] = false
any_reset previous (c ∷ cs) = elim (calculate_uint64_delta c previous).1 [
  | true ↦ true
  | false ↦ any_reset c cs
]

-- Along readings of a 64-bit counter of which none is flagged as a reset, the differences add up
-- to the last reading less the first: no difference wraps.
pub sum_of_deltas_lem :
    (first : ℕ) (cs : List ℕ)
    → IsWord first
    → AreWords cs
    → any_reset first cs ≡ false
    → first + sum_of_deltas first cs ≡ final first cs
unfolding sum_of_deltas any_reset calculate_uint64_delta
sum_of_deltas_lem first [] w ws h = omega arith
sum_of_deltas_lem first (c ∷ cs) w ws h = ground (arith, sum_of_deltas_lem c cs ws.0 ws.1)
